-- ===== src/Consumer/Handlers.antt =====
-- src/consumer/handlers: the three handlers.
pub mod Deliveries
use message_deduplication_id.Prelude.{
  ℕ, String, ◌<>◌, Bool, true, false, Option, none, some, List, [], ◌∷◌, ◌==◌, if◌then◌else◌,
}
use message_deduplication_id.Prelude.Exec.{Exn, exception, Exec, pure, raise, ok, raised, Result}
use message_deduplication_id.Dedup.{
  Value, int, text, dict, Fields, field, empty, DeduplicationConfig,
}
use message_deduplication_id.Consumer.Process.{Consumer}

-- OrderHandler, PaymentHandler and ShipmentHandler.
pub data Handler : Type 0 where
  orders payments shipments : Handler

unfoldable pub topics : Handler → List String
topics orders = "orders" ∷ []
topics payments = "payments" ∷ []
topics shipments = "shipments" ∷ []

unfoldable pub dlq_topic : Handler → String
dlq_topic orders = "orders.dlq"
dlq_topic payments = "payments.dlq"
dlq_topic shipments = "shipments.dlq"

-- A handler after `start`: it has its Kafka consumer, and its DLQ producer as there is a DLQ topic.
unfoldable pub started : Handler → DeduplicationConfig → Consumer
unfolding dlq_topic
started h config = record {
  dlq_topic = some (dlq_topic h);
  config = config;
  has_consumer = true;
  has_dlq_producer = true;
}

-- message.get(key, default)
unfoldable pub get_default : String → Value → Fields → Value
get_default k d empty = d
get_default k d (field j v fs) = if k == j then v else get_default k d fs

order_reply : Fields → Value
order_reply fs = dict (
    field "order_id" (get_default "order_id" (text "unknown") fs)
      (field "status" (text "created") empty))

payment_reply : Fields → Value
payment_reply fs = dict (
    field "payment_id" (get_default "payment_id" (text "unknown") fs)
      (field "charged" (get_default "amount" (int 0) fs) (field "status" (text "success") empty)))

shipment_reply : Fields → Value
shipment_reply fs = dict (
    field "shipment_id" (get_default "shipment_id" (text "unknown") fs) (
      field "tracking_number" (text "TRACK-STUB")
        (field "address" (get_default "address" (dict empty) fs) empty)))

-- what `handle` returns
unfoldable pub reply : Handler → Fields → Value
unfolding order_reply payment_reply shipment_reply
reply orders fs = order_reply fs
reply payments fs = payment_reply fs
reply shipments fs = shipment_reply fs

-- `type_name` is `type(v).__name__`. A value of JSON that is no object has no method `get`.
module _ (type_name : Value → String) where
  unfoldable pub no_get : Value → Exn
  no_get v = exception "AttributeError" ("'" <> type_name v <> "' object has no attribute 'get'")

  unfoldable pub handle : {S : Type 0} → Handler → Value → Exec S Value
  handle h (dict fs) = pure (reply h fs)
  handle h v = raise (no_get v)
