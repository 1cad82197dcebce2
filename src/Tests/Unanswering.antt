-- ===== src/Tests/Unanswering.antt =====
-- A claim whose answer is lost, under the consumer.
use message_deduplication_id.Prelude.{ℕ, ◌≡◌, refl, some, [], arith, string_discrete}
use message_deduplication_id.Prelude.Dict
use message_deduplication_id.Prelude.Exec.{exception, Exec, ok, raised}
use message_deduplication_id.Dedup.{Value, text}
use message_deduplication_id.Dedup.Lifecycle.{claimable}
use message_deduplication_id.Dedup.Redis.{claim}
use message_deduplication_id.Dedup.Redis.Keyspace.{Keyspace, keyspace, keyspace-IsLawful}
use message_deduplication_id.Dedup.Redis.Refines.{redis}
use message_deduplication_id.Dedup.Redis.Calls.{Drift}
use message_deduplication_id.Dedup.Redis.Outcomes.{Sound}
use message_deduplication_id.Dedup.Redis.Protocol.{fine}
use message_deduplication_id.Metrics.{record_claim_lost, observe_store_op}
use message_deduplication_id.Consumer.Message.{extract_message_id, get_field}
use message_deduplication_id.Consumer.Process.{World, commit, process_record}
use message_deduplication_id.Consumer.Process.Unanswered.{process_unanswered}
use message_deduplication_id.Tests.Fixtures.{config, silent_start, codec, broker, consumer, order}

abbrev stored : Keyspace
stored = (claim keyspace config "order-1" silent_start).1

-- The server answers again, four seconds later.
abbrev recovered : Keyspace
recovered = record stored { link = fine; clock = 9_000_000 }

recovered-Drift : Drift keyspace keyspace-IsLawful config stored recovered
unfolding claim message_deduplication_id.Dedup.Redis.lua_claim
    message_deduplication_id.Dedup.Redis.now_ms message_deduplication_id.Dedup.Redis.Keyspace.set_px
    Dict.get
recovered-Drift = record { keys = λ key. refl; deadlines = λ key. refl; later = omega arith }

silent_start-Sound : Sound keyspace keyspace-IsLawful config silent_start
unfolding Dict.get
silent_start-Sound = record { ttl = omega arith; clean = λ id. tt }

order_named : extract_message_id codec order ≡ ok (some "order-1")
unfolding extract_message_id string_discrete get_field
order_named = refl

abbrev Here : Type 0
Here = World (redis keyspace keyspace-IsLawful config) codec broker

abbrev over : Keyspace → Here
over s = record {
  store = s;
  broker = (0, 0);
  metrics = record {
    increments = [];
    active_processing = λ t. 0;
    processing_durations = [];
    store_durations = [];
  };
}

abbrev works : Value → Exec Keyspace Value
works v s = (ok (text "done"), s)

abbrev sleeps : ℕ → Exec Keyspace Unit
sleeps ms s = (ok tt, s)

process_unanswered_example :
    (process_record
        (redis keyspace keyspace-IsLawful config)
        codec
        broker
        consumer
        works
        sleeps
        order
        (over silent_start)
      ≡ (
        raised (exception "TimeoutError" "timed out"),
        record (over silent_start) {
          store = stored;
          metrics = observe_store_op "claim" (over silent_start).metrics;
        },
      ))
    × (process_record
          (redis keyspace keyspace-IsLawful config)
          codec
          broker
          consumer
          works
          sleeps
          order
          (over recovered)
        ≡ commit
            (redis keyspace keyspace-IsLawful config)
            codec
            broker
            consumer
            works
            sleeps
            (record (over recovered) {
              store = (claim keyspace config "order-1" recovered).1;
              metrics = record_claim_lost "orders" (
                  observe_store_op "get_status"
                    (observe_store_op "claim" (over recovered).metrics));
            }))
unfolding message_deduplication_id.Dedup.Redis.now_ms claimable Dict.get
process_unanswered_example =
    process_unanswered keyspace keyspace-IsLawful config codec broker consumer works sleeps order
      "order-1" order_named (exception "TimeoutError" "timed out") (over silent_start)
      (over recovered) silent_start-Sound refl refl recovered-Drift refl
