-- ===== src/Lib.antt =====
-- A deduplication and idempotency layer for Kafka consumers.
--
-- A message has an id, and a store keeps one record per id: PROCESSING under a lease, COMPLETED with
-- a result, FAILED with a number of attempts, or SKIPPED. A caller claims the message before it does
-- the work and marks the record afterwards. Three callers use the store: the consumer, which handles
-- the records of a topic one by one and commits their offsets; the guard, an async context manager;
-- and the decorator around a function. Beside them stands the outbox, a table of messages that a relay
-- publishes.
--
-- How Python is read: a coroutine is a function from a state to a result and a state (Prelude/Exec). A
-- result is a value or an exception, which is an Exception or a BaseException such as CancelledError;
-- `try … except Exception` catches the first kind alone, and a state is kept when an exception passes.
-- What other tasks do while one awaits is part of the state: `handle`, `sleep` and the body of a guard
-- are arguments that may change the store in any way a hypothesis does not exclude.
--
-- The files and the code:
--   Prelude: notation, tests, lists; Prelude/Dict: dictionaries; Prelude/Exec: coroutines, with
--     Exec/Adds, Gives and Preserves, rules on what a coroutine adds to a count and what it preserves.
--   Dedup: src/dedup/models.py. Dedup/Store: src/dedup/store.py as a record of methods, and the
--     contract of a store. Dedup/Lifecycle: the life of one message as functions and as transitions.
--     Dedup/Races: sequences of claims over any store that keeps the contract. Dedup/Workers: callers
--     of any such store that claim one message, work on it and mark it, as a step relation;
--     Guard/Uses relates the guard to it.
--     Dedup/Lockstep: two stores under the same calls.
--   Dedup/Memory: src/dedup/memory_store.py (claim, mark_completed, mark_failed, get_status, delete,
--     is_duplicate, size, clear, close). Memory/Refines fills the contract.
--   Dedup/Redis: src/dedup/redis_store.py, the scripts _LUA_CLAIM and _LUA_UPDATE_STATUS and the methods
--     that send them. Redis/Protocol: the server and the JSON codecs as parameters with their laws;
--     Redis/Keyspace: a server that meets them; Redis/Laws, Clean, Refines fill the contract; Redis/
--     Facts and Memory/Facts: what each method does to whole records, for Lockstep; Redis/
--     Outcomes, Calls, Lost, Deadlines and Expiry: sequences of calls by any number of clients over
--     connections that fail, and what comes after the time to live; Redis/Readback and Shape: what
--     get_status reads of the records that were written.
--   Idempotency/Guard: IdempotencyGuard, and Idempotency/Decorator: idempotent, of
--     src/idempotency/guard.py. Decorator/Unstored: a result that cannot be stored.
--   Metrics: src/metrics/dedup_metrics.py, the counters as a log of increments, the gauge by topic
--     and the observations of the two histograms; Metrics/Definitions: the metric objects.
--   Settings: src/config.py.
--   Consumer/Message: _extract_message_id, and Consumer/Process: DedupConsumer, of
--     src/consumer/dedup_consumer.py. Process/Settles, Accounting and Runs: the outcomes and commits of
--     a record and of a run; Process/Effects, Exhaustion and GiveUp: what becomes of a message;
--     Process/Interrupted, Redelivered, Unanswered and Raises: cancellations, and calls that raise or
--     are not answered; Process/Bounded, Frame and Gauge: how often `handle` runs, and the gauge.
--   Consumer/Handlers: src/consumer/handlers.
--   Consumer/Lifecycle: src/consumer/base.py, and start and stop of DedupConsumer with its fields.
--     Consumer/Main: main of src/consumer/__main__.py over any event loop; Main/Fleet: its three
--     handlers; Main/Balance and Failing: what it opens and closes, and a consumer that does not start.
--   Outbox: src/idempotency/outbox.py over the table of scripts/init_db.sql; Outbox/Rows and Batch: what
--     becomes of a row and of a batch; Outbox/Aborted: a failed transaction; Outbox/Relay: the polling
--     loop; Outbox/Running: start and stop.
--   Service: src/api.py and src/logging_config.py.
--   Tests: runs, and the theorems at concrete inputs.
--
-- Numbers: counts, times (microseconds) and attempts are natural numbers without a bound, as Python's
-- integers are. The back-off is in milliseconds. Loops: the retry loops run on fuel `max_retries + 1`;
-- a round raises `attempts`, which starts at 1, and the loop ends above `max_retries`, so the fuel does
-- not run out before it.
--
-- What is taken from elsewhere: Redis commands run one at a time and do what their documentation says;
-- cjson and json read back what they wrote, for the values that both keep (`exact` in Redis/Protocol;
-- an empty array is not among them, as cjson writes it as an empty object); byte strings and
-- json.loads of a Kafka record are a codec; the broker is two operations. A Redis command may raise,
-- and then it has done nothing, or it has run and its answer is lost. A statement of the outbox may
-- fail, and a commit may be undone or unanswered. The Kafka clients, the event loop, the Redis client
-- of the readiness probe and the lookups of the standard logging module are records or functions that
-- the definitions take.
--
-- Not modelled: the messages that are logged, the measured times, reading the environment, the
-- construction of a Redis client from its URL, signal handlers, and the processors of structlog,
-- which are calls of libraries. The metrics are those that one consumer writes; the code has one
-- object for all of them, so its counters are the sums. No other transaction changes the table of
-- the outbox while a batch runs, except as the locks of the fetch show. The other lines that no
-- definition stands for are imports, docstrings, the objects that modules build of library classes,
-- and the packages' re-exports. A record that expires does so in a step of the Redis server
-- (Redis/Expiry); the other theorems are about the time before it.
pub mod Prelude
pub mod Dedup
pub mod Settings
pub mod Idempotency
pub mod Metrics
pub mod Consumer
pub mod Outbox
pub mod Service
mod Tests
