-- ===== src/Runsd/Codec.antt =====
-- What the daemon takes from other crates to write values into the database and to read them back:
-- uuid, serde_json and chrono.
use ensurer_v.Prelude.{ℕ, ◌≡◌, String, true, Option, some, is_some}
use ensurer_v.Common.Json.{Json}
use ensurer_v.Common.Event.{ServerEvent}

pub record Codec : Type 0 where
  -- `Uuid::to_string` and `str::parse::<Uuid>`
  pub uuid_text : ℕ → String
  pub uuid_parse : String → Option ℕ
  -- `serde_json::to_string` and `serde_json::from_str`
  pub json_text : Json → String
  pub json_parse : String → Option Json
  pub event_text : ServerEvent → String
  -- `DateTime::from_timestamp_millis`: none out of the range of chrono's dates
  pub dt_of_millis : ℕ → Option ℕ

-- What the crates document of these: an id is read back from its text, a JSON text that was
-- written can be parsed, and a time is read as the number of milliseconds that it is.
pub record IsFaithful (c : Codec) : Type 0 where
  pub uuid_round : (u : ℕ) → c.uuid_parse (c.uuid_text u) ≡ some u
  pub json_reads : (v : Json) → is_some (c.json_parse (c.json_text v)) ≡ true
