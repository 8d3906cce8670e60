-- ===== src/Examples.antt =====
-- The theorems at concrete inputs, and runs of the definitions.
mod Samples
mod Common
mod Daemon
mod Actors
mod Watchdog
mod Supervisor
mod Client
mod Network
mod Api
mod ExternalApi
mod Graphql
mod Drawing
mod Startup
mod Session
