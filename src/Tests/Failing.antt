-- ===== src/Tests/Failing.antt =====
-- A handler that always fails, and runs over several records, with the theorems on them at concrete
-- inputs.
use message_deduplication_id.Prelude.{◌≡◌, refl, true, some, List, [], ◌∷◌, string_discrete}
use message_deduplication_id.Prelude.Dict
use message_deduplication_id.Prelude.Exec.{base_exception, Exec, ok, raised, Result}
use message_deduplication_id.Dedup.{Value, text, dict, field}
use message_deduplication_id.Dedup.Memory
use message_deduplication_id.Dedup.Memory.{MemoryStore}
use message_deduplication_id.Dedup.Memory.Refines.{memory}
use message_deduplication_id.Consumer.Message.{extract_message_id, get_field}
use message_deduplication_id.Consumer.Process
use message_deduplication_id.Consumer.Process.{
  World, Delivery, commit, payload_of, process_record, run,
}
use message_deduplication_id.Consumer.Process.Accounting.{CountsCommits}
use message_deduplication_id.Consumer.Process.Runs.{Ends, run-Ends}
use message_deduplication_id.Tests.Fixtures.{
  start, codec, broker, consumer, order, works, fails, sleeps,
}

abbrev fresh : World memory codec broker
fresh = record {
  store = start;
  broker = (0, 0);
  metrics = record {
    increments = [];
    active_processing = λ t. 0;
    processing_durations = [];
    store_durations = [];
  };
}

abbrev ends : World memory codec broker → Result (Unit {0}) × World memory codec broker
ends = process_record memory codec broker consumer fails sleeps order

-- It is cancelled at the second of two messages.
stops_at_second : Value → Exec MemoryStore Value
stops_at_second (dict (field k (text id) rest)) m = elim (string_discrete id "order-2") [
  | yes e ↦ (raised (base_exception "CancelledError" ""), m)
  | no ne ↦ works id m
]
stops_at_second v m = works v m

commits_counted : CountsCommits memory codec broker consumer stops_at_second sleeps true (λ s. s.0)
commits_counted = record {
  taken = record { at = λ s a h. refl; back = λ t s e h. absurd (cc) };
  sent = λ t v k. record { at = λ s. refl };
}

-- the same record twice, another one, and one that is not reached
abbrev deliveries : List (Delivery codec)
deliveries =
    ok (true, order)
    ∷ ok (true, order)
    ∷ ok (true, record order { value = some "order-2" })
    ∷ ok (true, order)
    ∷ []

abbrev stopped : Result (Unit {0}) × World memory codec broker
stopped = run memory codec broker consumer stops_at_second sleeps deliveries fresh

stopped_at_second :
    (stopped.0 ≡ raised (base_exception "CancelledError" "")) × (stopped.1.broker.0 ≡ 2)
unfolding run Process.run_loop process_record extract_message_id string_discrete
    Process.process_with get_field Memory.claim Dict.get start Process.process_claimed
    Process.execute_and_commit payload_of Process.attempt_loop Process.complete Process.store_result
    Memory.mark_completed Dict.put Process.skip commit Memory.init Memory.get_status stops_at_second
stopped_at_second = (refl, refl)

run-Ends_example :
    Ends memory codec broker consumer stops_at_second sleeps true
      (λ s. s.0)
      deliveries
      fresh
      stopped
run-Ends_example =
    run-Ends memory codec broker consumer stops_at_second sleeps true (λ s. s.0) commits_counted
      refl deliveries fresh
