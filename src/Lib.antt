-- ===== src/Lib.antt =====
-- Verification of the daemon `runsd`, of its terminal client `runs`, and of the types that they share.
--
-- The program keeps runs, each a list of calculations, in an SQLite database. The supervisor inserts
-- a run and spawns an actor (a task with a mailbox) for it, which spawns one per calculation. The
-- actor of a calculation submits it to an external API, retries it, records the outcome and tells
-- the run. One database actor alone executes the queries, and a watchdog looks for leases that are
-- over. The client shows the runs in a terminal: a pure function takes each message (a key, an event,
-- an answer of the daemon) to the next state and to the effects that it asks for.
--
-- Common (crates/common/src): the statuses and how the status of a run is derived from those of its
-- calculations (types.rs), the structs sent over the API and the validation of a submission
-- (model.rs), the events (event.rs), the key of a calculation (idempotency.rs).
--
-- Runsd.Codec, Runsd.Error, Runsd.Config: what the daemon takes from other crates (uuid, chrono,
-- serde_json) as a record of functions with the laws of their documentation (`IsFaithful`), the
-- errors of error.rs, the settings of config.rs.
--
-- Runsd.Db (crates/runsd/src/db): `Tables` is the database, one list of rows per table in the order of
-- insertion, with the columns of migrations/; each query of queries.rs is one function, and the
-- changes of a row (`Changes`) are separate from the search for the row. `Row` is the conversion of
-- a row into the structs of the API. A query that SQLite may refuse returns an error in its reply;
-- which one it refuses is an argument.
--
-- Runsd.Actor.Db (actor/db.rs): `process` is one command of the database actor, `serve` a history of
-- them.
--
-- Runsd.Actor.World, Runsd.Actor.Calc (actor/calc.rs, actor/worker_pool.rs, actor/event_bus.rs): an
-- actor is a function on a `World` (database, events, notifications, submissions). What others do is
-- in `Env`: the commands of others (and of the heartbeat task) before each of ours, the clock, the
-- outcomes of the API, the random draws. The loop of the actor is recursion on its mailbox.
--
-- Runsd.Actor.Run (actor/run.rs): the actor of a run, its loops over what arrives, with the messages
-- it sends in `Following`.
--
-- Runsd.Actor.Supervisor (actor/supervisor.rs): its operations on its maps of senders, the actors
-- that it spawned and the messages that it sent; Commands is the loop over its commands, with the
-- replies in their order. The channels of its handle are left out.
--
-- Runsd.Actor.Watchdog (actor/watchdog.rs): one tick, with its calls of the supervisor as the result.
--
-- Runsd.Actor.ExternalApi (actor/calc.rs) is the client of the external API: a submission, on the
-- answers that its launch and its polls get; to the actor it is one outcome of the `Env`.
-- Runsd.Actor.Channels (actor/event_bus.rs, actor/worker_pool.rs) are the wrappers over tokio's channel and
-- semaphore, which are parameters.
--
-- Runsd.Startup (crates/runsd/src/main.rs): the recovery and the restoration before the first request, and the
-- task that prunes old events.
--
-- Runsd.Api (crates/runsd/src/api): Error (error.rs), Handlers (handlers.rs), Cursor (the cursor of
-- `list_runs`), Routes (routes.rs): each handler on a `World` and on the supervisor that its command
-- finds; whether the supervisor's mailbox takes a submission in time is an argument. Sse (sse.rs) is the
-- stream of events as the list of its items. Health is the health and metrics pages. Graphql (graphql.rs) has the
-- queries, Graphql.Types the types and conversions, Graphql.Mutations the mutations.
--
-- Runs.App (crates/runs/src/app): State (state.rs), Keybindings (keybindings.rs), Message (msg.rs, and
-- the commands of network.rs), Update (update.rs): `update` on a message, `handle_key` on a key, with
-- the actions of a key in Update.Actions and Update.Selection, the cursors in Update.Motion, the
-- overlays in Update.Overlays and the command line in Update.Command. An `App` is passed and returned
-- where the code changes it in place. An access out of bounds, where the code would panic, changes
-- nothing.
--
-- Runs.Network (crates/runs/src/network.rs): Sse (network/sse.rs) parses a body given as its frames, Events
-- and Reconnect are the loop over the connections, Client (network/unix_client.rs) judges an answer,
-- Commands are the requests of the commands and of an import. What a connection gives is an argument
-- (a `Wire`, a list of `Attempt`). The loop over a connection's events has fuel for one turn per byte
-- and one more.
--
-- Runs.Ui (crates/runs/src/ui.rs and ui/): what is drawn, as styled texts: Colors, Dashboard, RunList with
-- Highlight, Details (run_detail.rs and calc_detail.rs), StatusBar, Overlays.
--
-- Runs.Main (crates/runs/src/main.rs): the loop over the messages with what it performs and draws, the socket
-- and the doctor. Runs.Config (config.rs): the settings.
--
-- The laws: Runsd.Db.Sound, Runsd.Db.Keys are the invariants of the tables, Runsd.Actor.Db.History and
-- Runsd.Actor.Db.Keyed carry them through any commands, Runsd.Actor.Calc.Sound through an actor that is
-- interleaved with the others, the Keeps modules and Supervisor.Obeys through the supervisor and the
-- watchdog, and Runsd.Api.Routes.Sound through the requests of the API, whose statuses
-- Runsd.Api.Routes.Statuses is about; Runsd.Api.Cursor.RoundTrip is about the cursor.
-- Runsd.Db.Swept is about the recovery at the start, RoundTrip about insertion and reading back,
-- Replay about the events that a client asks for, Spawns and Cancels about what the supervisor spawns
-- and whom it tells, Effects and Follows about what the actors of calculations and runs do. Of the
-- client, State.Index is about its index of runs, Update.Steady and Update.Reached about what any
-- messages leave, Update.Ranges about the visual mode, Update.View about the cursor, Update.Retries and
-- Update.Asked about the retries, Update.Credit, Pages and Requests about the next page; Events.Chunks and
-- Events.Ends are about a connection's events, Reconnect.Waits and Reconnect.Resumes about the loop,
-- Commands.Imports about an import. ExternalApi.Settles and Explains are about when and why a submission
-- ends, Startup.Ready about the start, Graphql.Same and Reads about GraphQL against REST with Requests,
-- Inputs and Submits under them. Of the drawing, Dashboard.Counts and Jobs are about the dashboard,
-- Highlight.Texts and Ascii about the marking of matches, Overlays.Within about the places of the overlays.
-- Main.Loop is about the client's loop. Calc.Rows is about the row that the actor of a calculation leaves,
-- with Calc.Sends and Actor.Db.Spared about the commands that come in between. Run.Followed and Run.Ids
-- are about the keys that a run follows.
--
-- Not modelled: async-graphql with its schema, ratatui's layout and cells, the setup of the terminal
-- and the clipboard (crates/runs/src/main.rs), the command lines, and what is input and output of libraries
-- (sockets, tracing, signals).
--
-- Bounds: the integers of SQLite are i64, cast from and to u32 with the wrap-around written out;
-- chrono's dates end, and what writes a time ahead of the clock has a hypothesis (`IsTimely`) that says
-- how far ahead: the lease and the longest delay of an actor, or 5 s for each attempt of an u32 at a
-- recovery;
-- a loop that reads a channel, or polls, is recursion on the list of what arrives, so no fuel is needed,
-- but for the events of a connection and for the marking of matches, which has one round per byte and
-- one more.

mod Prelude
pub mod Common
pub mod Runsd
pub mod Runs
mod Examples
