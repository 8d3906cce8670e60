-- ===== src/Runs/Network/Events.antt =====
-- The connections to the event stream in `run_network` (crates/runs/src/network.rs).
pub mod Chunks
pub mod Ends
use ensurer_v.Prelude.{
  ℕ, zero, suc, ◌*◌, ◌%◌, ◌^◌, min, String, append, length, ◌+◌, Option, none, some, List, [], ◌∷◌,
  ◌++◌, Result, ok, err, show_nat,
}
use ensurer_v.Common.Event.{SequencedEvent}
use ensurer_v.Runs.App.Message.{AppMsg}
use ensurer_v.Runs.Network.Sse.{SseEvent, SseStream, Frame, next}

-- What has been heard: the number of the last event, and the messages sent to the update.
pub record Heard : Type 0 where
  pub last_seq : ℕ
  pub sent : List AppMsg

abbrev pub tell : AppMsg → Heard → Heard
tell msg h = record h { sent = h.sent ++ msg ∷ [] }

-- The bytes of the frames that are still to come; the loop has that many turns at most, and one.
unfoldable pub bytes_of : List Frame → ℕ
bytes_of [] = 0
bytes_of (Frame.data_frame d ∷ body) = length d + bytes_of body
bytes_of (Frame.trailers ∷ body) = bytes_of body
bytes_of (Frame.failed e ∷ body) = bytes_of body

abbrev pub or_unchanged : Heard → Option Heard → Heard
or_unchanged h none = h
or_unchanged h (some h') = h'

-- `serde_json::from_str`
module _ (parse : String → Option SequencedEvent) where
  abbrev parsed : Option SequencedEvent → Heard → Heard
  parsed none h = h
  parsed (some e) h = tell (AppMsg.server_event e) (record h { last_seq = e.seq })

  abbrev pub hear : Option String → Heard → Heard
  hear none h = h
  hear (some text) h = parsed (parse text) h

  -- `while let Some(result) = stream.next().await`; without a result when the fuel is spent.
  unfoldable pub follow : ℕ → Heard → SseStream → Option Heard
  unfolding next
  follow zero h s = none
  follow (suc n) h s = elim (next s).0 [
    | none ↦ some h
    | some result ↦ elim result [
      | ok event ↦ follow n (hear event.data_field h) (next s).1
      | err e ↦ some h
    ]
  ]

  -- The events of one connection.
  unfoldable pub listen : Heard → List Frame → Heard
  unfolding follow bytes_of
  listen h body = or_unchanged h (follow (suc (bytes_of body)) h (record { body = body; buf = [] }))
