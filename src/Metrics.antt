-- ===== src/Metrics.antt =====
-- src/metrics/dedup_metrics.py: the counters as the log of their increments, each by its labels, the
-- gauge of active messages by its topic, and the two histograms of durations as the logs of their
-- observations, each by its label, without the measured time. `fall` comes after a `rise` only.
pub mod Definitions
use message_deduplication_id.Prelude.{
  ℕ, suc, ◌+◌, ◌-◌, String, Bool, false, not, List, [], ◌∷◌, ◌==◌, if◌then◌else◌,
}

pub data Series : Type 0 where
  messages_total : String → String → Series
  retry_attempts_total : String → Series
  dlq_messages_total : String → Series
  consumer_errors_total : String → String → Series

pub record Metrics : Type 0 where
  pub increments : List Series
  pub active_processing : String → ℕ
  pub processing_durations : List String
  pub store_durations : List String

-- `….labels(…).inc()`
abbrev inc : Series → Metrics → Metrics
inc x m = record m { increments = x ∷ m.increments }

unfoldable pub record_processed : String → Metrics → Metrics
record_processed topic = inc (messages_total topic "processed")

unfoldable pub record_duplicate : String → Metrics → Metrics
record_duplicate topic = inc (messages_total topic "duplicate")

unfoldable pub record_claim_lost : String → Metrics → Metrics
record_claim_lost topic = inc (messages_total topic "claim_lost")

unfoldable pub record_no_message_id : String → Metrics → Metrics
record_no_message_id topic = inc (messages_total topic "no_id")

unfoldable pub record_dlq : String → Metrics → Metrics
record_dlq topic m = inc (dlq_messages_total topic) (inc (messages_total topic "dlq") m)

unfoldable pub record_retry : String → Metrics → Metrics
record_retry topic = inc (retry_attempts_total topic)

unfoldable pub record_error : String → String → Metrics → Metrics
record_error topic error_type = inc (consumer_errors_total topic error_type)

-- `measure_processing` up to its `yield`, and its `finally`
abbrev pub rise : String → Metrics → Metrics
rise topic m = record m {
  active_processing =
      λ t. (if t == topic then m.active_processing t + 1 else m.active_processing t);
}

abbrev pub fall : String → Metrics → Metrics
fall topic m = record m {
  active_processing =
      λ t. (if t == topic then m.active_processing t - 1 else m.active_processing t);
  processing_durations = topic ∷ m.processing_durations;
}

-- the `finally` of `measure_store_op`
abbrev pub observe_store_op : String → Metrics → Metrics
observe_store_op operation m = record m { store_durations = operation ∷ m.store_durations }

-- An outcome of a message: a status of `dedup_messages_total` that ends its processing. (`no_id` is
-- counted beside the outcome.)
abbrev pub is_outcome : Series → Bool
is_outcome (messages_total topic status) = not (status == "no_id")
is_outcome _ = false

unfoldable pub outcomes : List Series → ℕ
outcomes [] = 0
outcomes (x ∷ xs) = let n = outcomes xs in if is_outcome x then suc n else n
