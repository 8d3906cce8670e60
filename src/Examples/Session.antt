-- ===== src/Examples/Session.antt =====
-- The loop of the terminal client (crates/runs/src/main.rs) at concrete inputs: a page of no runs
-- arrives, nothing arrives in time, and the client is left.
use ensurer_v.Prelude.{
  ◌≡◌, refl, join_path, true, ◌⊎◌, Option, none, some, List, [], ◌∷◌, All, map, length, take,
}
use ensurer_v.Runs.App.State.{new}
use ensurer_v.Runs.App.State.Index.{IsIndexed}
use ensurer_v.Runs.App.Message.{AppMsg}
use ensurer_v.Runs.App.Update.Requests.{effects_of}
use ensurer_v.Runs.Main.{
  message_of, perform, session, Place, default_socket, client_socket, doctor_socket,
}
use ensurer_v.Runs.Main.Loop.{states, session-states}
use ensurer_v.Examples.Samples.{marks}

abbrev received : List (Option AppMsg)
received = some (AppMsg.runs_loaded [] none) ∷ none ∷ some AppMsg.quit ∷ none ∷ []

session-states_example :
    ((session marks (λ _. true) 0 received new).performed
      ≡ perform marks (effects_of marks (map message_of received) new))
    × ((session marks (λ _. true) 0 received new).drawn
        ≡ take
            (length (session marks (λ _. true) 0 received new).drawn)
            (states marks (map message_of received) new))
    × (((session marks (λ _. true) 0 received new).performed.quits ≡ true)
        ⊎ ((session marks (λ _. true) 0 received new).drawn
            ≡ states marks (map message_of received) new))
    × All IsIndexed (session marks (λ _. true) 0 received new).drawn
session-states_example = session-states marks (λ _. true) received (λ n. refl)

-- The client draws twice and quits.
session_lem :
    (length (session marks (λ _. true) 0 received new).drawn ≡ 2)
    × ((session marks (λ _. true) 0 received new).performed.quits ≡ true)
unfolding session
session_lem = (refl, refl)

abbrev place : Place
place = record { runtime_dir = none; temp_dir = "/tmp"; exists = λ _. true }

-- The doctor does not look at the socket that the settings name.
doctor_socket_lem :
    (client_socket none (some "/run/a.sock") place ≡ "/run/a.sock")
    × (doctor_socket none place ≡ "/tmp/runsd.sock")
unfolding client_socket doctor_socket default_socket join_path
doctor_socket_lem = (refl, refl)
