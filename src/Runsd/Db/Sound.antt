-- ===== src/Runsd/Db/Sound.antt =====
-- What holds of every row of the tables between two commands of the database actor: the columns
-- agree with the status, and every text and time can be read back.
pub mod Keeps
pub mod Reads
use ensurer_v.Prelude.{ℕ, ◌≡◌, String, true, Option, none, some, All, is_some, is_ok}
use mathlib.Core.Option
use ensurer_v.Common.CalcStatus
use ensurer_v.Common.CalcStatus.{
  CalcStatus, pending, running, retrying, succeeded, failed, cancelled,
}
use ensurer_v.Common.RunStatus
use ensurer_v.Common.ErrorKind
use ensurer_v.Runsd.Codec.{Codec}
use ensurer_v.Runsd.Db.Row.{RunRow, CalcRow}
use ensurer_v.Runsd.Db.Tables.{Db}

-- A lease has an owner exactly in the status running; what a status needs is there.
abbrev pub Lifecycle : CalcStatus → CalcRow → Type 0
Lifecycle pending r =
    (r.lease_owner ≡ none) × (r.attempt ≡ 0) × (r.next_attempt_at ≡ none) × (r.error_kind ≡ none)
Lifecycle running r =
    (is_some r.lease_owner ≡ true)
    × (is_some r.lease_expires_at ≡ true)
    × (is_some r.started_at ≡ true)
Lifecycle retrying r = (r.lease_owner ≡ none) × (is_some r.next_attempt_at ≡ true)
Lifecycle succeeded r =
    (r.lease_owner ≡ none) × (is_some r.result_path ≡ true) × (is_some r.completed_at ≡ true)
Lifecycle failed r =
    (r.lease_owner ≡ none) × (is_some r.error_kind ≡ true) × (is_some r.completed_at ≡ true)
Lifecycle cancelled r = (r.lease_owner ≡ none) × (is_some r.completed_at ≡ true)

abbrev pub IsKind : Option String → Type 0
IsKind none = Unit
IsKind (some s) = is_ok (ErrorKind.from_str s) ≡ true

module _ (codec : Codec) where
  -- A time that chrono can hold.
  abbrev pub IsDate : ℕ → Type 0
  IsDate t = is_some (codec.dt_of_millis t) ≡ true

  abbrev pub IsDate? : Option ℕ → Type 0
  IsDate? none = Unit
  IsDate? (some t) = IsDate t

  pub record IsSoundAs (s : CalcStatus) (r : CalcRow) : Type 0 where
    pub status_text : r.status ≡ CalcStatus.to_string s
    pub lifecycle : Lifecycle s r
    pub id_reads : is_some (codec.uuid_parse r.id) ≡ true
    pub id_written : Option.map codec.uuid_text (codec.uuid_parse r.id) ≡ some r.id
    pub run_id_reads : is_some (codec.uuid_parse r.run_id) ≡ true
    pub input_reads : is_some (codec.json_parse r.input_json) ≡ true
    pub kind_reads : IsKind r.error_kind
    pub next_attempt_is_date : IsDate? r.next_attempt_at
    pub lease_is_date : IsDate? r.lease_expires_at
    pub created_is_date : IsDate r.created_at
    pub started_is_date : IsDate? r.started_at
    pub completed_is_date : IsDate? r.completed_at
    pub updated_is_date : IsDate r.updated_at

  abbrev pub IsSound : CalcRow → Type 0
  IsSound r = (s : CalcStatus) × IsSoundAs s r

  -- The text of a run's status is that of a `RunStatus`.
  pub record IsSoundRun (r : RunRow) : Type 0 where
    pub status_reads : is_ok (RunStatus.from_str r.status) ≡ true
    pub id_reads : is_some (codec.uuid_parse r.id) ≡ true
    pub created_is_date : IsDate r.created_at
    pub updated_is_date : IsDate r.updated_at

  pub record IsSoundDb (tables : Db) : Type 0 where
    pub runs_sound : All IsSoundRun tables.runs
    pub calcs_sound : All IsSound tables.calculations
