-- ===== src/Tests/Consuming.antt =====
-- Runs of the consumer over the in-memory store, and the theorems on it at concrete inputs.
use message_deduplication_id.Prelude.{ℕ, ◌+◌, ◌≡◌, refl, true, some, [], arith, string_discrete}
use message_deduplication_id.Prelude.Exec.{base_exception, Exec, ok, raised, Result}
use message_deduplication_id.Prelude.Exec.Adds.{Adds}
use message_deduplication_id.Dedup.{Value, text, dict, field, empty}
use message_deduplication_id.Dedup.Lifecycle.{done, claimable}
use message_deduplication_id.Dedup.Memory
use message_deduplication_id.Dedup.Memory.{MemoryStore}
use message_deduplication_id.Dedup.Memory.Refines.{memory, memory-Contract, view}
use message_deduplication_id.Idempotency.Guard.Laws.{Leaves}
use message_deduplication_id.Metrics.{observe_store_op, record_claim_lost, record_duplicate}
use message_deduplication_id.Prelude.Dict
use message_deduplication_id.Consumer.Message.{extract_message_id, get_field}
use message_deduplication_id.Consumer.Process.{
  World, commit, store_result, complete, attempt_loop, payload_of, execute_and_commit,
  process_claimed, process_with, process_record,
}
use message_deduplication_id.Consumer.Process.Accounting.{
  CountsCommits, settled, process_record_settles,
}
use message_deduplication_id.Consumer.Process.Bounded.{Counts, runs, process_record-Adds}
use message_deduplication_id.Consumer.Process.Effects.{is_running, process-process}
use message_deduplication_id.Prelude.Exec.Gives.{Keeps}
use message_deduplication_id.Consumer.Process.Gauge.{active, process_record-Keeps}
use message_deduplication_id.Consumer.Process.Interrupted.{process-cancelled}
use message_deduplication_id.Consumer.Process.Redelivered.{process_redelivered}
use message_deduplication_id.Tests.Fixtures.{
  start, codec, broker, consumer, order, works, is_cancelled, sleeps,
}

abbrev fresh : World memory codec broker
fresh = record {
  store = start;
  broker = (0, 0);
  metrics = record {
    increments = [];
    active_processing = λ t. 0;
    processing_durations = [];
    store_durations = [];
  };
}

abbrev Ran : Type 0
Ran = Result (Unit {0}) × World memory codec broker

abbrev runs_with : (Value → Exec MemoryStore Value) → World memory codec broker → Ran
runs_with handle = process_record memory codec broker consumer handle sleeps order

works_returns : (runs_with works fresh).0 ≡ ok tt
unfolding process_record process_with process_claimed execute_and_commit payload_of attempt_loop
    complete store_result commit extract_message_id Memory.claim Memory.mark_completed
    string_discrete start get_field Dict.get Dict.put Memory.init
works_returns = refl

commits_counted : CountsCommits memory codec broker consumer works sleeps true (λ s. s.0)
commits_counted = record {
  taken = record { at = λ s a h. refl; back = λ t s e h. absurd (cc) };
  sent = λ t v k. record { at = λ s. refl };
}

process_record_settles_example :
    let w = (runs_with works fresh).1 in
    (settled memory codec broker consumer works sleeps w
      ≡ settled memory codec broker consumer works sleeps fresh + 1)
    × (w.broker.0 ≡ fresh.broker.0 + 1)
process_record_settles_example =
    process_record_settles memory codec broker consumer works sleeps true (λ s. s.0) commits_counted
      refl order fresh works_returns

works_counted : Counts memory codec broker consumer works sleeps (λ m. m.clock)
unfolding Memory.claim Memory.mark_completed Memory.mark_failed Memory.get_status
works_counted = record {
  of_handle = λ v. record { at = λ m. omega arith };
  of_sleep = λ ms. record { at = λ m. omega arith };
  of_claim = λ k. record { at = λ m. ground arith };
  of_status = λ k. record { at = λ m. omega arith };
  of_complete = λ k v. record { at = λ m. ground arith };
  of_fail = λ k e n. record { at = λ m. ground arith };
}

process_record-Adds_example :
    Adds
      (runs memory codec broker consumer works sleeps (λ m. m.clock) works_counted)
      3
      (process_record memory codec broker consumer works sleeps order)
process_record-Adds_example =
    process_record-Adds memory codec broker consumer works sleeps (λ m. m.clock) works_counted order

order_named : extract_message_id codec order ≡ ok (some "order-1")
unfolding extract_message_id string_discrete get_field
order_named = refl

order_payload : Value
order_payload = dict (field "message_id" (text "order-1") empty)

claimed : MemoryStore
claimed = (Memory.claim "order-1" start).1

later : ℕ → MemoryStore
later us = record claimed { clock = us }

waits_us : (us : ℕ) → Leaves memory memory-Contract "order-1" claimed (later us)
unfolding memory-Contract claimed later
waits_us us = record { up = tt; rules = refl; view = refl }

-- a second after the first delivery
again : World memory codec broker
again = record (runs_with works fresh).1 {
  store = record (runs_with works fresh).1.store { clock = 1_001_000 };
}

untouched : Leaves memory memory-Contract "order-1" (runs_with works fresh).1.store again.store
unfolding memory-Contract again
untouched = record { up = tt; rules = refl; view = refl }

process-process_example :
    let first = (runs_with works fresh).1 in
    (first.store ≡ (Memory.mark_completed "order-1" (text "done") (later 1001)).1)
    × (view first.store "order-1" ≡ some (done (text "done")))
    × (runs_with works again
        ≡ commit memory codec broker consumer works sleeps (record again {
          store = (Memory.claim "order-1" again.store).1;
          metrics =
              record_duplicate "orders"
                (observe_store_op "get_status" (observe_store_op "claim" again.metrics));
        }))
    × (view (runs_with works again).1.store "order-1" ≡ some (done (text "done")))
unfolding memory-Contract claimable start Memory.init payload_of Dict.get later claimed
    string_discrete order_payload Memory.claim
process-process_example =
    process-process memory memory-Contract codec broker consumer works sleeps order "order-1"
      order_named order_payload refl (omega arith) fresh (later 1001) tt refl (text "done") refl
      (λ h. cc) (waits_us 1001) tt again untouched

process-cancelled_example :
    let stopped = runs_with is_cancelled fresh in
    (stopped.0 ≡ raised (base_exception "CancelledError" ""))
    × (stopped.1.broker ≡ (0, 0))
    × (stopped.1.store ≡ claimed)
    × ((Memory.claim "order-1" (later 400_000_000)).0 ≡ ok true)
unfolding memory-Contract claimable start Memory.init payload_of Dict.get claimed string_discrete
    order_payload Memory.claim later
process-cancelled_example =
    process-cancelled memory memory-Contract codec broker consumer is_cancelled sleeps order
      "order-1" order_named order_payload refl (omega arith) fresh claimed tt refl "CancelledError"
      "" refl (waits_us 1000) (later 400_000_000) (waits_us 400_000_000) (omega arith)

-- the same record after a restart of the consumer, four seconds into the lease
restarted : World memory codec broker
restarted = record fresh { store = later 4_000_000 }

process_redelivered_example :
    ((runs_with is_cancelled fresh).1.broker ≡ (0, 0))
    × (runs_with is_cancelled restarted
        ≡ commit memory codec broker consumer is_cancelled sleeps (record restarted {
          store = (Memory.claim "order-1" (later 4_000_000)).1;
          metrics =
              record_claim_lost "orders"
                (observe_store_op "get_status" (observe_store_op "claim" restarted.metrics));
        }))
    × (is_running (view (Memory.claim "order-1" (later 4_000_000)).1 "order-1") ≡ true)
unfolding memory-Contract claimable start Memory.init payload_of Dict.get claimed string_discrete
    order_payload Memory.claim later restarted
process_redelivered_example =
    process_redelivered memory memory-Contract codec broker consumer is_cancelled sleeps order
      "order-1" order_named order_payload refl (omega arith) fresh claimed tt refl "CancelledError"
      "" refl (waits_us 1000) restarted (waits_us 4_000_000) (omega arith)

process_record-Keeps_example :
    Keeps
      (active memory codec broker consumer is_cancelled sleeps "orders")
      (process_record memory codec broker consumer is_cancelled sleeps order)
process_record-Keeps_example =
    process_record-Keeps memory codec broker consumer is_cancelled sleeps "orders" order
