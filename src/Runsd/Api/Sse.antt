-- ===== src/Runsd/Api/Sse.antt =====
-- crates/runsd/src/api/sse.rs: the stream of events that the daemon sends, as the list of its items.
use ensurer_v.Prelude.{
  ℕ, String, append, Option, none, some, List, [], ◌∷◌, ◌++◌, map, Result, ok, err, show_nat,
}
use ensurer_v.Common.Event.{SequencedEvent, event_kind_str}
use ensurer_v.Runsd.Codec.{Codec}
use ensurer_v.Runsd.Error.{AppError}
use ensurer_v.Runsd.Db.Row.{EventRow}
use ensurer_v.Runsd.Db.Tables.{Db}
use ensurer_v.Runsd.Db.Queries.Events.{list_events_since}

pub data SseItem : Type 0 where
  event : (id kind data_field : String) → SseItem
  comment : String → SseItem

-- What `recv` of the subscription gives; an end of the list is a client that goes away.
pub data Received : Type 0 where
  published : SequencedEvent → Received
  lagged : ℕ → Received
  closed : Received

abbrev replayed : EventRow → SseItem
replayed row = event (show_nat row.seq) row.kind row.payload_json

-- A replay that fails is left out.
abbrev replay : Result AppError (List EventRow) → List SseItem
replay (ok rows) = map replayed rows
replay (err e) = []

-- Numbers begin at 1, so that a negative one (an i64) is as 0.
abbrev since_of : Option ℕ → ℕ
since_of none = 0
since_of (some since) = since

module _ (codec : Codec) where
  -- The data is the event alone, without its number; its text is always there.
  unfoldable pub live : List Received → List SseItem
  unfolding event_kind_str
  live [] = []
  live (published e ∷ rest) =
      event (show_nat e.seq) (event_kind_str e.event) (codec.event_text e.event) ∷ live rest
  live (lagged n ∷ rest) = comment (append "lagged:" (show_nat n)) ∷ live rest
  live (closed ∷ rest) = []

  -- The tables are those of the query, the events received those behind the subscription.
  unfoldable pub sse_handler : Option ℕ → Db → List Received → List SseItem
  unfolding list_events_since live
  sse_handler since tables received =
      replay (list_events_since (since_of since) 1000 tables) ++ live received
