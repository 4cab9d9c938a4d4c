-- ===== src/Lib.antt =====
-- A verification library for the Python package in src/dev_harness: a harness that drives language
-- models through a development pipeline. Its processes are a host-wide broker, which rations the
-- providers' quotas and the budget; an engine for each workspace, which runs the pipeline and accepts
-- critic commands; and terminal clients, which draw the engine's event stream.
--
-- The broker keeps a token bucket and a limiter for each provider, a store of reservations, a cost
-- governor and a kill-switch. A client asks it to RESERVE before a call of a provider, and to COMMIT or
-- RELEASE after it. Messages travel in frames of a length and a JSON body, as the engine's events do.
-- The engine fans its events out to a bounded queue for each client, whose first frame is a snapshot;
-- the client batches them by a throttle and keeps lines in a scrollback buffer. The engine's commands
-- arrive in frames of their own. A pool of workers runs the chunks of a graph, each when those it depends
-- on are completed, and the integrator merges their branches. Checkpoints of a session are rows of a
-- table with a digest; a shutdown seals the last one, and a start looks for a session without a seal.
--
-- Files and what they model (paths below src/dev_harness):
--   Contracts.Enums, .State, .Events, .Transitions  contracts/enums.py, state.py, events.py,
--     transitions.py: the vocabularies, records, payloads, and the table of the lifecycle
--   Core.Critic  core/critic.py and core/critic_commands.py
--   Core.Signals  core/signals.py, with `forget` of core/process_group.py
--   Core.TaskRegistry  core/task_registry.py
--   Broker.Bucket, with Acquire for the blocking call  broker/bucket.py
--   Broker.Limiter, Reservation, Cost, KillSwitch, Fallback, Backoff  broker/local_limiter.py,
--     reservation.py, cost.py, kill_switch.py, fallback.py, backoff.py
--   Broker.Policies  broker/policies.py, and `_build_buckets` of broker/daemon.py
--   Broker.Protocol  broker/protocol.py
--   Broker.Daemon  the handlers of broker/daemon.py
--   Ipc.Framing, Ipc.Queue, Ipc.Router  ipc/framing.py, ipc/queue.py, ipc/router.py
--   Engine.Fanout  engine/fanout.py and engine/state_broadcast.py
--   Engine.Routing  engine/routing.py, with the counter reducer of engine/state.py; Develop the loop of
--     engine/pipeline.py between the development and the router
--   Engine.Overflow  engine/overflow.py
--   Engine.Dag  engine/dag.py: Search the search for a cycle, Kahn the topological order, Build the
--     construction with its two validations and the queries
--   Engine.WorkerPool  engine/worker_pool.py, with its loop in Loop and that the loop ends in Progress
--   Engine.Session, Engine.Context  engine/session.py, engine/context.py
--   Engine.Commands  engine/commands.py
--   Engine.Classifier  engine/classifier.py
--   Engine.Validators  engine/personas/validators.py
--   Engine.Watcher  the scans of engine/workspace_watcher.py
--   Engine.Integrator  engine/integrator.py
--   Engine.Shutdown  engine/shutdown.py
--   Storage.Saver, Retention, Integrity  storage/sqlite_saver.py, retention.py, integrity.py
--   Recovery.Sessions  the detection of recovery/session_recovery.py, the seal of engine/shutdown.py and
--     the keywords of storage/checkpoint_binding.py
--   Recovery.Reclaim  recovery/reclaim.py
--   Providers.Errors  providers/errors.py
--   Tui.Throttle, Tui.Scrollback  tui/throttle.py, tui/scrollback.py
--   Common, Dict, Sorted  shared names, lists over native numbers, Python's dict, and sorting by
--     the order of texts
-- The child Laws of a module, or one named for its subject, holds its theorems, the child Tests its
-- concrete runs. An operation has the name of its method; `_reserve` and its kin of the daemon are
-- `handle_reserve` and so on.
--
-- Conventions. An object is a record, and a method that changes it returns the record after the call
-- beside its result, after a raised exception too. A reading of a clock, a fresh id and the answers of
-- the operating system are arguments; calls of several threads are interleaved as a sequence of steps,
-- since each method holds its object's lock, except where a method waits, which is split there. What
-- the package takes from elsewhere (the JSON codec, the model registry, the provider call, the wrapped
-- completion client and the summarizer, lower-casing, the reading of a report's line, path resolving, the
-- splitting of text, hashes and the text of ids) is a parameter, with its laws as hypotheses.
-- Floats are whole numbers of a small unit: milliseconds for times, 1/60000 of a token for the bucket's
-- level, so that a rate of `rpm / 60` tokens a second is `rpm` units a millisecond, and millionths of
-- the price unit for money. Rounding of floats is not modelled. The amounts of a COMMIT are natural
-- numbers; the daemon does not check the sign of those in a message, and a negative one is not modelled.
--
-- What git does is a parameter too: an unknown state and the commands that the code runs. The tables of
-- SQLite are lists of rows, and a query is what its SQL means on them.
--
-- Loops are recursive over their list. The others take fuel or observations: `read_exactly` takes as many
-- rounds as bytes are asked for, which is enough since each round but the last reads one; `drain` as
-- many as the queue has items; the search for a cycle may go as deep as there are chunks and one more,
-- since each call colours one chunk; the topological order takes as many rounds as there are chunks,
-- since each removes one; the pool's loop one more than there are chunks, since each round settles one.
-- The loop of the pipeline runs over the visits of its stage, and the loops that wait over the rounds
-- that a schedule gives them, with a result of its own for a schedule that ends first.
--
-- Not modelled: sockets, the file lock, the connections and migrations of sqlite, the HTTP adapters of
-- the providers, the rest of the LangGraph pipeline, the worktrees, the terminal widgets and the command lines,
-- which are I/O and glue.
pub mod Common
pub mod Dict
pub mod Sorted
pub mod Contracts
pub mod Core
pub mod Broker
pub mod Ipc
pub mod Providers
pub mod Engine
pub mod Storage
pub mod Recovery
pub mod Tui
