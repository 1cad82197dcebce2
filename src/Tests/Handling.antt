-- ===== src/Tests/Handling.antt =====
-- Runs of the handlers, and the theorems on them at concrete inputs.
use message_deduplication_id.Prelude.{◌≡◌, refl, some, [], arith, string_discrete, String}
use message_deduplication_id.Prelude.Dict
use message_deduplication_id.Prelude.Exec.{ok, Result}
use message_deduplication_id.Dedup.{Value, int, text, list, dict, field, empty}
use message_deduplication_id.Dedup.Lifecycle.{done, claimable}
use message_deduplication_id.Dedup.Memory
use message_deduplication_id.Dedup.Memory.{MemoryStore}
use message_deduplication_id.Dedup.Memory.Refines.{memory, memory-Contract, view}
use message_deduplication_id.Idempotency.Guard.Laws.{Leaves}
use message_deduplication_id.Metrics.{record_duplicate, observe_store_op}
use message_deduplication_id.Consumer.Message.{extract_message_id, get_field}
use message_deduplication_id.Consumer.Process.{World, commit, payload_of, process_record}
use message_deduplication_id.Consumer.Handlers.{orders, started, get_default, handle}
use message_deduplication_id.Consumer.Handlers.Deliveries.{handler_replies}
use message_deduplication_id.Tests.Fixtures.{config, start, codec, broker, order, sleeps}

type_name : Value → String
type_name (list vs) = "list"
type_name _ = "str"

get_default_missing : get_default "amount" (int 0) (field "payment_id" (int 7) empty) ≡ int 0
unfolding get_default string_discrete
get_default_missing = refl

order_named : extract_message_id codec order ≡ ok (some "order-1")
unfolding extract_message_id string_discrete get_field
order_named = refl

abbrev fresh : World memory codec broker
fresh = record {
  store = start;
  broker = (0, 0);
  metrics = record {
    increments = [];
    active_processing = λ t. 0;
    processing_durations = [];
    store_durations = [];
  };
}

abbrev delivers : World memory codec broker → Result (Unit {0}) × World memory codec broker
delivers =
    process_record memory codec broker (started orders config) (handle type_name orders) sleeps
      order

-- the store a second after the first delivery
again : World memory codec broker
again = record (delivers fresh).1 { store = record (delivers fresh).1.store { clock = 1_001_000 } }

untouched : Leaves memory memory-Contract "order-1" (delivers fresh).1.store again.store
unfolding memory-Contract again
untouched = record { up = tt; rules = refl; view = refl }

handler_replies_example :
    let answer = dict (field "order_id" (text "unknown") (field "status" (text "created") empty)) in
    (view (delivers fresh).1.store "order-1" ≡ some (done answer))
    × (delivers again
        ≡ commit memory codec broker
            (started orders config)
            (handle type_name orders)
            sleeps
            (record again {
              store = (Memory.claim "order-1" again.store).1;
              metrics =
                  record_duplicate "orders"
                    (observe_store_op "get_status" (observe_store_op "claim" again.metrics));
            }))
unfolding memory-Contract claimable start Memory.init Dict.get payload_of string_discrete
    get_default
handler_replies_example =
    handler_replies memory memory-Contract codec broker type_name sleeps orders config (omega arith)
      order "order-1" order_named (λ h. cc) (field "message_id" (text "order-1") empty) fresh again
      refl tt tt refl untouched
