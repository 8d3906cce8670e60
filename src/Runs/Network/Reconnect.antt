-- ===== src/Runs/Network/Reconnect.antt =====
-- The reconnection to the event stream, with its backoff, in `run_network`
-- (crates/runs/src/network.rs).
pub mod Waits
pub mod Resumes
use ensurer_v.Prelude.{ℕ, ◌*◌, ◌%◌, ◌^◌, min, String, append, Option, List, [], ◌∷◌, ◌++◌, show_nat}
use ensurer_v.Common.Event.{SequencedEvent}
use ensurer_v.Runs.App.Message.{AppMsg}
use ensurer_v.Runs.Network.Sse.{Frame}
use ensurer_v.Runs.Network.Events.{Heard, tell, listen}

-- What `sse_connect` gives: an error, or a body.
pub data Attempt : Type 0 where
  refused : String → Attempt
  opened : List Frame → Attempt

-- The variables of the loop, the paths it asked for and the times it slept.
pub record Link : Type 0 where
  pub heard : Heard
  pub backoff_ms : ℕ
  pub paths : List String
  pub sleeps : List ℕ

abbrev pub start : Link
start = record {
  heard = record { last_seq = 0; sent = [] };
  backoff_ms = 500;
  paths = [];
  sleeps = [];
}

abbrev pub path_since : ℕ → String
path_since seq = append "/events?since=" (show_nat seq)

-- `tokio::time::sleep`, and the next backoff.
abbrev rest : Link → Link
rest l = record l {
  sleeps = l.sleeps ++ l.backoff_ms ∷ [];
  backoff_ms = min (l.backoff_ms * 2 % 2 ^ 64) 30000;
}

abbrev ask : Link → Link
ask l = record l {
  heard = tell AppMsg.sse_disconnected l.heard;
  paths = l.paths ++ path_since l.heard.last_seq ∷ [];
}

module _ (parse : String → Option SequencedEvent) where
  -- One turn of the loop.
  unfoldable pub attempt : Attempt → Link → Link
  unfolding listen
  attempt (refused e) l = rest (ask l)
  attempt (opened body) l =
      let asked = ask l in
      rest (record asked {
        heard = listen parse (tell AppMsg.sse_reconnected asked.heard) body;
        backoff_ms = 500;
      })

  unfoldable pub attempts : List Attempt → Link → Link
  unfolding attempt
  attempts [] l = l
  attempts (a ∷ tries) l = attempts tries (attempt a l)
