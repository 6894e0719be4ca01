-- ===== src/Lib.antt =====
-- Agent Metrics: a local dashboard for the usage of coding agents. The core (apps/core) keeps a
-- database in step with the logs that adapters (packages/adapters-*) write, the metrics engine
-- (packages/metrics-engine) counts tokens and edits, and the desktop shell (apps/desktop) shows a
-- widget. This library models the parts of the program that keep state or compute figures.
--
-- Sync/ is the synchronisation of the core, apps/core/src/sync-coordinator.ts with sync-types.ts,
-- sync-utils.ts and sync-run-store.ts. `Coordinator` is a record with the private fields of the
-- class; each method is a function from that state to its outcome and the next state, under the
-- method's name in snake_case: `accept`, `startRun`, `drainQueue`, `completeSuccess`,
-- `completeFailure`, `abortRun`, `pruneRuns`, `shutdown` and the public methods. `execute` is cut at
-- the call of the adapter: `start_run` goes up to it, and `settle` is what follows once the
-- adapter's promise has settled, in any order of the runs and at any time. `time_out` is the timer
-- of a run, `tick` that of the periodic synchronisation. Sync/Coordinator/Events.antt lists what can
-- happen and runs any sequence of it. The clock and the factories of ids are functions in `Config`.
-- A `Map` is a list of keys with a function (Prelude/Maps.antt), a `Set` a list (Prelude/Texts.antt).
-- An instant is the millisecond that its ISO text denotes.
--
-- Usage/ is the token accounting of packages/metrics-engine/src/index.ts, with the registry of
-- packages/event-schema/src/usage.ts: Registry and Tokens for one row, Overview for
-- `buildOverviewMetrics`. Counts are natural numbers, as the event schema demands; the success rate
-- is a ratio and no floating-point number. The names that an object inherits are among the
-- registry's keys where the source asks with `in`.
--
-- Shared/ is packages/shared-utils/src: Diff for diff.ts, with its two rows as lists, and Ledger for
-- ledger.ts, whose files are given by what the code's tests see of their contents.
--
-- EventLog/ is apps/core/src/event-log-rotation.ts. The disk has the live log, the temporary copy
-- and the archives; which file operations fail is a parameter, and so is what the platform reads
-- from a line. `next_archive_path` has 100 attempts, as the source has, by recursion on their number.
--
-- Ingest/ is the way of the event log into the database, apps/core/src/raw-ingest.ts,
-- raw-primitives.ts and event-log-projector.ts: Files for the identity of a file and the cursors,
-- Reader for `readEventLogIncremental`, Projector for `ingestEventLog`, Synchronizer for the loop
-- that repeats it. A file is the list of its bytes, a line its code units. How many bytes a read of
-- the file returns, hashes, the decoding of bytes, JSON, the event schema and the normalization are
-- parameters; the database is what is written to it, with the cursor. The loops of the reader run
-- on fuel, the number of bytes and one more, which Feeding and Chunks show to be enough; that of the
-- synchronizer has the 512 rounds of the source.
--
-- Desktop/ is apps/desktop/src/widget-state.ts: the state of the widget, its reducer and the
-- recovery after a crash of the renderer. Desktop/Supervisor/ is runtime/runtime-supervisor.ts there,
-- which keeps three child processes alive: State for its variables and reports, Turns for the
-- callbacks of children and timers, Lifecycle for `start`, `restart` and `stop`. A function of the
-- source that awaits is one function here for each part between two awaits, and any sequence of
-- such turns, at any times, is a run. A record is known by its generation; a record that `children`
-- no longer holds is known by its effect on the tracker of its name alone.
--
-- Every other loop is a recursion on a list or on the number of attempts, so each function is total.
--
-- Not modelled of these files: the check of the clock (INVALID_CLOCK), factories that throw and the
-- counters for default ids; an adapter whose `sync` calls the coordinator before it returns, or
-- throws before it returns a promise; properties of an adapter's result beyond its type; failures
-- of the run store and its SQL; fractional durations; the copies that methods hand out; a summary
-- that is cut within a surrogate pair, of which nothing is kept; the atomic write of the ledger;
-- log messages; the compression of archives; instants before 1970; a log that shrinks while it is
-- read; the spool of raw envelopes and the canonical lease; the commands, the environments and the
-- logs of the child processes. Not modelled at all: the adapters, the SQL of queries and
-- projections, the HTTP routes, the schemas, the dashboard, the windows of the desktop shell, the
-- hooks of the command line and the prices.
pub mod Prelude
pub mod Sync
pub mod Usage
pub mod Desktop
pub mod Shared
pub mod EventLog
pub mod Ingest
