-- ===== src/Tests/Raising.antt =====
-- Runs in which something else than `handle` fails, and the theorems on them at concrete inputs.
use message_deduplication_id.Prelude.{
  ℕ, ◌≡◌, refl, true, none, some, [], ◌∷◌, arith, string_discrete, String,
}
use message_deduplication_id.Prelude.Dict
use message_deduplication_id.Prelude.Exec.{Exn, exception, Exec, ok, raised, ◌>>◌}
use message_deduplication_id.Dedup.{Value, null, text, dict, field, empty, opaque}
use message_deduplication_id.Dedup.Lifecycle.{claimable}
use message_deduplication_id.Dedup.Redis.{redis_key, now_ms}
use message_deduplication_id.Dedup.Redis
use message_deduplication_id.Dedup.Redis.Keyspace.{Keyspace, keyspace, keyspace-IsLawful, dumps}
use message_deduplication_id.Dedup.Redis.Refines.{Up, redis, redis-Contract}
use message_deduplication_id.Metrics.{observe_store_op, record_processed, record_error, rise, fall}
use message_deduplication_id.Consumer.Message.{
  Codec, ConsumerRecord, extract_message_id, get_field, header_id,
}
use message_deduplication_id.Consumer.Process.{
  Broker, World, commit, measure, finally, payload_of, process_record, run,
}
use message_deduplication_id.Consumer.Process.Raises.{run_undecodable, process-unstored}
use message_deduplication_id.Tests.Fixtures.{config, redis_start, codec, broker, consumer, order}

order_named : extract_message_id codec order ≡ ok (some "order-1")
unfolding extract_message_id string_discrete get_field
order_named = refl

abbrev world_of : Keyspace → World (redis keyspace keyspace-IsLawful config) codec broker
world_of s = record {
  store = s;
  broker = (0, 0);
  metrics = record {
    increments = [];
    active_processing = λ t. 0;
    processing_durations = [];
    store_durations = [];
  };
}

-- a result that `json.dumps` refuses
abbrev unserialisable : Value → Exec Keyspace Value
unserialisable v s = (ok (opaque 0), s)

abbrev waits : ℕ → Exec Keyspace Unit
waits ms s = (ok tt, s)

redis-Up : Up keyspace keyspace-IsLawful config redis_start
unfolding Dict.get
redis-Up = record { answers = refl; ttl = omega arith; clean = λ id. tt }

claimed : Keyspace
claimed = (Redis.claim keyspace config "order-1" redis_start).1

type_error : Exn
type_error = exception "TypeError" "Object is not JSON serializable"

process-unstored_example :
    process_record
      (redis keyspace keyspace-IsLawful config)
      codec
      broker
      consumer
      unserialisable
      waits
      order
      (world_of redis_start)
    ≡ finally
        (redis keyspace keyspace-IsLawful config)
        codec
        broker
        (commit (redis keyspace keyspace-IsLawful config) codec broker consumer unserialisable waits
          >> measure
              (redis keyspace keyspace-IsLawful config)
              codec
              broker
              (record_processed "orders"))
        (fall "orders")
        (record (world_of claimed) {
          metrics = record_error "orders" "TypeError" (
              observe_store_op "mark_completed"
                (rise "orders" (observe_store_op "claim" (world_of claimed).metrics)));
        })
unfolding redis-Contract claimed claimable Dict.get payload_of string_discrete dumps
    Redis.mark_completed
process-unstored_example =
    process-unstored (redis keyspace keyspace-IsLawful config)
      (redis-Contract keyspace keyspace-IsLawful config) codec broker consumer unserialisable waits
      order "order-1" order_named (dict (field "message_id" (text "order-1") empty)) (opaque 0)
      "TypeError" "Object is not JSON serializable" (world_of redis_start) claimed claimed refl
      (omega arith) (λ h. cc) redis-Up refl refl refl

-- No byte string decodes.
abbrev strict : Codec
strict = record {
  Bytes = String;
  non_empty = λ b. true;
  decode = λ b. raised (exception "UnicodeDecodeError" "");
  decode_replace = λ b. b;
  loads = λ b. ok null;
  as_value = text;
  str = λ v. "";
}

abbrev strict_broker : Broker strict
strict_broker = record {
  State = ℕ;
  commit = λ n. (ok tt, n);
  send_and_wait = λ t v k n. (ok tt, n);
}

abbrev poisoned : ConsumerRecord strict
poisoned = record {
  topic = "orders";
  partition = 0;
  offset = 8;
  key = none;
  value = none;
  headers = ("X-Message-Id", some "?") ∷ [];
}

abbrev fresh : World (redis keyspace keyspace-IsLawful config) strict strict_broker
fresh = record {
  store = redis_start;
  broker = 0;
  metrics = record {
    increments = [];
    active_processing = λ t. 0;
    processing_durations = [];
    store_durations = [];
  };
}

run_undecodable_example :
    run
      (redis keyspace keyspace-IsLawful config)
      strict
      strict_broker
      consumer
      unserialisable
      waits
      (ok (true, poisoned) ∷ [])
      fresh
    ≡ (raised (exception "UnicodeDecodeError" ""), fresh)
unfolding header_id string_discrete
run_undecodable_example =
    run_undecodable (redis keyspace keyspace-IsLawful config) strict strict_broker consumer
      unserialisable waits refl poisoned "?" (exception "UnicodeDecodeError" "") [] fresh refl refl
