-- ===== src/Metrics/Definitions.antt =====
-- The metric objects at the head of src/metrics/dedup_metrics.py: their names, their labels and the
-- bounds of their buckets, in milliseconds.
use message_deduplication_id.Prelude.{ℕ, ◌<◌, String, ◌≡◌, refl, List, [], ◌∷◌, arith}
use message_deduplication_id.Metrics.{
  Series, messages_total, retry_attempts_total, dlq_messages_total, consumer_errors_total,
}

pub record Definition : Type 0 where
  pub name : String
  pub labels : List String
  pub buckets : List ℕ

abbrev pub messages : Definition
messages = record { name = "dedup_messages_total"; labels = "topic" ∷ "status" ∷ []; buckets = [] }

abbrev pub processing_duration_seconds : Definition
processing_duration_seconds = record {
  name = "dedup_processing_duration_seconds";
  labels = "topic" ∷ [];
  buckets = 5 ∷ 10 ∷ 25 ∷ 50 ∷ 100 ∷ 250 ∷ 500 ∷ 1000 ∷ 2500 ∷ 5000 ∷ 10_000 ∷ [];
}

abbrev pub store_operation_duration_seconds : Definition
store_operation_duration_seconds = record {
  name = "dedup_store_operation_duration_seconds";
  labels = "operation" ∷ [];
  buckets = 1 ∷ 5 ∷ 10 ∷ 25 ∷ 50 ∷ 100 ∷ 250 ∷ 500 ∷ 1000 ∷ [];
}

abbrev pub retry_attempts : Definition
retry_attempts = record { name = "dedup_retry_attempts_total"; labels = "topic" ∷ []; buckets = [] }

abbrev pub dlq_messages : Definition
dlq_messages = record { name = "dedup_dlq_messages_total"; labels = "topic" ∷ []; buckets = [] }

abbrev pub active : Definition
active = record { name = "dedup_active_processing"; labels = "topic" ∷ []; buckets = [] }

abbrev pub consumer_errors : Definition
consumer_errors = record {
  name = "dedup_consumer_errors_total";
  labels = "topic" ∷ "error_type" ∷ [];
  buckets = [];
}

-- The counter that an increment goes to, and the labels that the call names.
abbrev pub counter : Series → Definition
counter (messages_total t s) = messages
counter (retry_attempts_total t) = retry_attempts
counter (dlq_messages_total t) = dlq_messages
counter (consumer_errors_total t e) = consumer_errors

abbrev pub named_labels : Series → List (String × String)
named_labels (messages_total t s) = ("topic", t) ∷ ("status", s) ∷ []
named_labels (retry_attempts_total t) = ("topic", t) ∷ []
named_labels (dlq_messages_total t) = ("topic", t) ∷ []
named_labels (consumer_errors_total t e) = ("topic", t) ∷ ("error_type", e) ∷ []

abbrev names : List (String × String) → List String
names [] = []
names ((k, v) ∷ kvs) = k ∷ names kvs

-- A call names the labels that its counter was made with, in their order; the client of Prometheus
-- raises ValueError otherwise.
pub names-counter : (x : Series) → names (named_labels x) ≡ (counter x).labels
names-counter (messages_total t s) = refl
names-counter (retry_attempts_total t) = refl
names-counter (dlq_messages_total t) = refl
names-counter (consumer_errors_total t e) = refl

abbrev Rises : ℕ → List ℕ → Type 0
Rises low [] = Unit {0}
Rises low (b ∷ bs) = (low < b) × Rises b bs

-- The bounds of the buckets rise, as the client asks of them.
pub buckets_rise :
    Rises 0 processing_duration_seconds.buckets × Rises 0 store_operation_duration_seconds.buckets
buckets_rise = omega arith
