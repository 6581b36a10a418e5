-- ===== src/Lib.antt =====
-- CronCompose: models of the agent's core and of the control plane's agent gateway, and what holds of
-- them.
--
-- The agent (agent/) keeps its own copy of every job and runs it on a local schedule, also while the
-- control plane (control-plane/) is out of reach. The control plane sends job sets over a stream; the
-- agent stores them, schedules them, runs them under a concurrency policy with retries, and queues
-- what happened in a persistent outbox that a single loop drains to the stream. On the same commands
-- it deploys applications into releases, one of which a link makes live, and it controls the services of
-- its host and edits their configuration with a way back.
--
-- Which file models what:
-- - Prelude: names, Boolean tests, lists, keys, Go maps as association lists (Map), numbers of values
--   that pass a test (Counting), integers (Int), text (Text), Go's package strings (Strings)
--   and filepath (Paths).
-- - Outbox: agent/internal/outbox/outbox.go. `open_outbox`, `enqueue` and `drain` are Open, Enqueue and
--   Drain; the bbolt bucket and the protobuf encoding are the parameters of Outbox.Extern.
-- - Scheduler: agent/internal/scheduler/scheduler.go. `apply`, `start_all` and `stop_all` are Apply,
--   Start and Stop; the cron library is the parameter of Scheduler.Cron. Scheduler.Memory is an
--   instance of it, for runs of the model.
-- - Executor: agent/internal/executor. `build_command`, `with_user`, `build_env` and `run` are
--   buildCommand, withUser, buildEnv and Run; what the host does is an argument.
-- - Store: agent/internal/store. `save_jobs`, `load_jobs`, `save_state` and `load_state`; the files and
--   JSON are the parameters of Store.Files, and Store.Memory and Store.Encoding are instances.
-- - Runtime.Jobs: agent/internal/runtime/sync.go. `apply_sync` and `apply_cached_jobs` are applySync and
--   applyCachedJobs, over Store and Scheduler.
-- - Runtime.Runs: agent/internal/runtime/runs.go. The goroutines of executeRun as a step relation
--   (`Step`), with `admit`, `track_run`, `release_run` and `cancel_run`. A call of queue keeps its
--   message or, when Enqueue fails, drops it (`send`, and `acked` of Runtime.Jobs).
-- - Runtime.Retry: runWithRetries of the same file, over Executor.
-- - Runtime.Catchup: agent/internal/runtime/catchup.go. `run_catchup`, `missed_windows`, and recordFire
--   as the two sections `stamp_fire` and `save_snapshot`, between which those of other goroutines may
--   run (`run_sections`); the schedules of the cron library are the parameter of
--   Runtime.Catchup.Schedules.
-- - Runtime.Connection: the backoff and dialAddr of agent/internal/runtime/runtime.go.
-- - Dotenv: agent/internal/deploy/dotenv.go, the `.env` files of deployed apps.
-- - Deploy: agent/internal/deploy, the deploys. Deploy.Acts has what a deploy does to its host as a
--   history of acts, each with its outcome; Deploy.Stages, Deploy.Flow and Deploy.Pipeline are the
--   stages of runner.go, the flows of flow.go and `deploy`. Deploy.Events, Deploy.Scrub and
--   Deploy.Redact are the log of a run (`emit`, `overLogCap`, ansi.go and `redact`), Deploy.Release the
--   pruning of releases and the search for one, Deploy.Waves the start groups, Deploy.Scripts the
--   splitting of install scripts and the cleanup scripts, Deploy.Places the work directories.
-- - Connectors: agent/internal/connectors. Connectors.Files and Connectors.Apply are the write pipeline
--   of safety.go, Connectors.Braces the check of text.go, Connectors.Nginx the nginx provider,
--   Connectors.Direct the commands without a connector, Connectors.Execute the executor; the files and
--   commands of the host are the parameter of Connectors.Host, and Connectors.Memory is an instance.
-- - Users: agent/internal/osuser, `Resolve` and `WrapScript`.
-- - Gateway.Registry: control-plane/internal/agentgw/registry.go, the connected agents.
-- - Gateway.Versions: control-plane/internal/agentgw/update.go, versions and the offered update.
-- - Gateway.Pending: control-plane/internal/agentgw/pending.go, the requests that wait for a result.
-- - Gateway.Progress: control-plane/internal/agentgw/progress.go, the stages of an update.
-- - Gateway.Catalog: control-plane/internal/updates/catalog.go, the latest release.
--
-- How a definition corresponds to the code: a method on a struct is a function on a record; an error is
-- an Option, a Boolean flag or a type of the model's own; a method that can crash has a result for
-- the crash. A critical section is one step. A loop over a Go map takes the order of the map's list.
--
-- Bounds and fuel: Drain takes fuel, and one round more than there are messages is enough. The retry
-- loop takes fuel, and one attempt more than there are retries is enough. missedWindows stops at 20
-- windows by itself, and mergeDotEnvAround at 6 directories. Other loops are structural.
-- The outbox counter wraps at 2^64, a sequence number at 2^32, and the segment of a version at 2^64 with
-- Go's signed order.
--
-- Not modelled: clocks and durations, the identity of ULIDs (a fresh run id is a premise of a step),
-- logging outside of the log of a deploy, and the interleaving of Enqueue with a Drain in progress. Of
-- the agent: the discovery of connectors, their providers but nginx, and their reports; the preflight,
-- git, copying and process managers of a deploy, of which only the outcomes count; terminals, network
-- tools, enrollment, TLS, transport and self-update. Of the control plane: its HTTP API, its database
-- access and what stands on it. The CLI and the web front end.
pub mod Prelude
pub mod Outbox
pub mod Scheduler
pub mod Users
pub mod Executor
pub mod Store
pub mod Runtime
pub mod Dotenv
pub mod Deploy
pub mod Connectors
pub mod Gateway
