-- ===== src/Runs/Main.antt =====
-- crates/runs/src/main.rs: the loop of the terminal client, the socket that it connects to, and the
-- doctor. The terminal, the clipboard and the reading of keys are left out.
pub mod Loop
use ensurer_v.Prelude.{
  ℕ, zero, suc, String, append, Bool, true, false, ◌&&◌, Option, none, some, List, [], ◌∷◌, ◌++◌,
  Result, ok, err, join_path, if◌then◌else◌,
}
use ensurer_v.Runs.App.State.{App}
use ensurer_v.Runs.App.Message.{AppMsg, NetworkCmd, Effect}
use ensurer_v.Runs.App.Update.{update}
use ensurer_v.Runs.Network.Client.{Wire, ClientError, Request, is_success, error_text}

-- What the effects of a turn lead to: the commands sent to the network, the messages that the loop
-- sends to itself, the texts copied, and whether the loop is left; each list oldest first.
pub record Performed : Type 0 where
  pub commands : List NetworkCmd
  pub told : List AppMsg
  pub yanked : List String
  pub quits : Bool

abbrev pub nothing : Bool → Performed
nothing quits = record { commands = []; told = []; yanked = []; quits = quits }

-- What is left of the loop: the states that it draws, what it performs, and whether it ends as the
-- terminal cannot be drawn.
pub record Session : Type 0 where
  pub drawn : List App
  pub performed : Performed
  pub failed : Bool

-- `timeout(debounce, app_rx.recv()).await.ok().flatten().or(Some(AppMsg::Tick))`
abbrev pub message_of : Option AppMsg → AppMsg
message_of none = AppMsg.tick
message_of (some msg) = msg

-- One after the other.
abbrev pub and_then : Performed → Performed → Performed
and_then p q = record {
  commands = p.commands ++ q.commands;
  told = p.told ++ q.told;
  yanked = p.yanked ++ q.yanked;
  quits = q.quits;
}

-- What follows the effects; `draws` says whether the terminal is drawn.
abbrev pub after_effects : Performed → (draws : Bool) → App → Session → Session
after_effects p draws app later =
    if p.quits
    then record { drawn = []; performed = p; failed = false }
    else if draws
    then record later { drawn = app ∷ later.drawn; performed = and_then p later.performed }
    else record { drawn = []; performed = p; failed = true }

module _ (id_text : ℕ → String) where
  -- `for effect in effects`; every channel takes what is sent to it.
  unfoldable pub perform : List Effect → Performed
  perform [] = nothing false
  perform (Effect.quit ∷ rest) = nothing true
  perform (Effect.network cmd ∷ rest) =
      let p = perform rest in record p { commands = cmd ∷ p.commands }
  perform (Effect.save_result calc_id ∷ rest) =
      let p = perform rest in
      record p { told = AppMsg.cmd_ok (append "Result saved for " (id_text calc_id)) ∷ p.told }
  perform (Effect.yank text ∷ rest) = let p = perform rest in record p { yanked = text ∷ p.yanked }

  module _ (draws : ℕ → Bool) where
    -- The loop from its n-th turn on, over what its turns receive: a message, or none in time.
    unfoldable pub session : ℕ → List (Option AppMsg) → App → Session
    unfolding perform update
    session n [] app = record { drawn = []; performed = nothing false; failed = false }
    session n (received ∷ rest) app =
        let (new_app, effects) = update id_text (message_of received) app in
        let later = session (suc n) rest new_app in
        after_effects (perform effects) (draws n) new_app later

-- What the process finds around it: `XDG_RUNTIME_DIR`, `temp_dir()`, and which paths exist.
pub record Place : Type 0 where
  pub runtime_dir : Option String
  pub temp_dir : String
  pub exists : String → Bool

unfoldable pub default_socket : Place → String
unfolding join_path
default_socket place = elim place.runtime_dir [
  | none ↦ join_path place.temp_dir "runsd.sock"
  | some p ↦ join_path p "runsd.sock"
]

-- The socket of the client, from `--socket` and the settings.
unfoldable pub client_socket : (cli configured : Option String) → Place → String
unfolding default_socket
client_socket (some path) configured place = path
client_socket none (some path) place = path
client_socket none none place = default_socket place

-- The socket of the doctor.
unfoldable pub doctor_socket : (cli : Option String) → Place → String
unfolding default_socket
doctor_socket (some path) place = path
doctor_socket none place = default_socket place

abbrev mark : Bool → String
mark true = "✓"
mark false = "✗"

-- The closure `print`.
abbrev line : Bool → String → String → String
line good label detail = append (mark good) (append " " (append label (append ": " detail)))

-- The lines printed, and the exit code.
abbrev verdict : List String → Bool → List String × ℕ
verdict lines true = (lines ++ "\nAll checks passed." ∷ [], 0)
verdict lines false = (lines ++ "\nSome checks failed — is runsd running?" ∷ [], 1)

-- `run_doctor`, with the answer to `GET /healthz` over its socket.
unfoldable pub run_doctor :
    Wire → Place → (cli : Option String) → Result ClientError (ℕ × String) → List String × ℕ
unfolding doctor_socket
run_doctor wire place cli (ok (status, body)) =
    let path = doctor_socket cli place in
    let exists = place.exists path in
    let good = is_success status in
    verdict
      (line exists "socket" path
        ∷ line good "healthz"
            (append "HTTP " (append (wire.status_text status) (append " — " body)))
        ∷ [])
      (exists && good)
run_doctor wire place cli (err e) =
    let path = doctor_socket cli place in
    verdict
      (line (place.exists path) "socket" path
        ∷ line false "healthz" (append "connect failed: " (error_text wire e))
        ∷ [])
      false
