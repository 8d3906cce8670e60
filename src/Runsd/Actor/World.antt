-- ===== src/Runsd/Actor/World.antt =====
-- What an actor of crates/runsd/src/actor acts on: the tables behind the database actor, the event
-- bus (event_bus.rs) and the channel to its run. What it cannot foresee is an `Env`.
use ensurer_v.Prelude.{ℕ, suc, ◌≤◌, String, Bool, List, [], ◌∷◌, ◌++◌, Result}
use ensurer_v.Common.Event.{SequencedEvent}
use ensurer_v.Common.Model.{CalcId}
use ensurer_v.Runsd.Codec.{Codec}
use ensurer_v.Runsd.Error.{AppError}
use ensurer_v.Runsd.Db.Tables.{Db}
use ensurer_v.Runsd.Actor.Db.{DbCmd, Reply, Served, answer, serve}

-- The result of a call of the external API.
pub data ApiOutcome : Type 0 where
  succeeded : (result_path : String) → ApiOutcome
  transient_error : (message : String) → ApiOutcome
  permanent_error : (message : String) → ApiOutcome

-- The answers of the environment; each is asked with the number of the step.
pub record Env : Type 0 where
  pub codec : Codec
  -- `Utc::now()` in milliseconds
  pub clock : ℕ → ℕ
  -- how the database actor serves the command of this step
  pub served : ℕ → Served
  -- the commands of other actors that it serves before that one
  pub others : ℕ → List (Served × DbCmd)
  -- whether the worker pool gives a permit (it refuses only when it is closed)
  pub permits : ℕ → Bool
  -- the outcome of a submission to the external API
  pub api : ℕ → ApiOutcome
  -- `gen_range(0..=bound)`
  pub draw : ℕ → ℕ → ℕ
  -- whether a sleep ends before the next message of the mailbox comes
  pub sleeps : ℕ → Bool
  -- whether all senders of the mailbox are gone once it is empty
  pub closes : Bool

pub record World : Type 0 where
  pub step : ℕ
  pub tables : Db
  pub published : List SequencedEvent  -- on the bus, oldest first
  pub notified : List CalcId  -- `RunNotification::CalcFinished` to the run, oldest first
  pub calls : ℕ  -- submissions to the external API

abbrev pub Act : Type 0 → Type 0
Act A = World → A × World

infixl 5 ◌>>=◌ ◌>>◌
unfoldable pub ◌>>=◌ : {A B : Type 0} → Act A → (A → Act B) → Act B
◌>>=◌ m f w = let (a, w') = m w in f a w'

abbrev pub ◌>>◌ : {A B : Type 0} → Act A → Act B → Act B
m >> k = m >>= λ _. k

unfoldable pub pure : {A : Type 0} → A → Act A
pure a w = (a, w)

abbrev pub next : World → World
next w = record w { step = suc w.step }

module _ (env : Env) where
  unfoldable pub read_clock : Act ℕ
  read_clock w = (env.clock w.step, next w)

  -- A command through `DbHandle`, and its reply.
  unfoldable pub send : (cmd : DbCmd) → Act (Result AppError (Reply cmd))
  unfolding answer serve
  send cmd w =
      let before = serve env.codec (env.others w.step) w.tables in
      let (reply, after) = answer env.codec (env.served w.step) cmd before in
      (reply, record w { step = suc w.step; tables = after })

  unfoldable pub acquire : Act Bool
  acquire w = (env.permits w.step, next w)

  unfoldable pub submit : Act ApiOutcome
  submit w = (env.api w.step, record w { step = suc w.step; calls = suc w.calls })

  unfoldable pub draw_up_to : ℕ → Act ℕ
  draw_up_to bound w = (env.draw w.step bound, next w)

  unfoldable pub sleep_first : Act Bool
  sleep_first w = (env.sleeps w.step, next w)

-- `EventBus::publish`: an event with no subscriber is dropped there, not here.
unfoldable pub publish : SequencedEvent → Act (Unit {0})
publish event w = (tt, record w { published = w.published ++ event ∷ [] })

unfoldable pub notify : CalcId → Act (Unit {0})
notify id w = (tt, record w { notified = w.notified ++ id ∷ [] })

-- The random source stays in its range.
pub record IsRange (env : Env) : Type 0 where
  pub draw-le : (n bound : ℕ) → env.draw n bound ≤ bound
