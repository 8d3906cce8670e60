-- ===== src/Runsd/Actor/Channels.antt =====
-- crates/runsd/src/actor/event_bus.rs and worker_pool.rs: what the actors share, over tokio's channel and semaphore.
use ensurer_v.Prelude.{ℕ, String, Result}
use ensurer_v.Common.Event.{SequencedEvent}

-- `tokio::sync::broadcast`: a sender is a state of type `S`, a receiver of type `R`.
pub record Broadcast (S R : Type 0) : Type 0 where
  pub channel : ℕ → S
  pub send : SequencedEvent → S → Result String ℕ × S
  pub subscribe : S → R × S

-- `tokio::sync::Semaphore` on a state of type `S`, with the permit that it gives once it can.
pub record Semaphore (S P : Type 0) : Type 0 where
  pub with_permits : ℕ → S
  pub acquire_owned : S → Result String P × S

abbrev pub event_bus_capacity : ℕ
event_bus_capacity = 1024

module _ {S R : Type 0} (tokio : Broadcast S R) where
  unfoldable pub new_bus : S
  new_bus = tokio.channel event_bus_capacity

  -- An error means that nobody has subscribed, and is dropped.
  unfoldable pub publish_on : SequencedEvent → S → S
  publish_on event bus = (tokio.send event bus).1

  unfoldable pub subscribe_to : S → R × S
  subscribe_to bus = tokio.subscribe bus

module _ {S P : Type 0} (tokio : Semaphore S P) where
  unfoldable pub new_pool : ℕ → S
  new_pool max_concurrent = tokio.with_permits max_concurrent

  unfoldable pub acquire_from : S → Result String P × S
  acquire_from pool = tokio.acquire_owned pool
