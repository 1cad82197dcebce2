-- ===== src/Consumer/Process/Gauge.antt =====
-- The gauge of active messages over the processing of one record.
use message_deduplication_id.Prelude.{ℕ, String, ◌≡◌, refl, ◌∙◌, Option, none, some, arith}
use message_deduplication_id.Prelude.Exec.{Exec}
use message_deduplication_id.Prelude.Exec.Gives.{Keeps, Keeps-bind, Keeps-if}
use message_deduplication_id.Dedup.{Value}
use message_deduplication_id.Dedup.Store.{Store}
use message_deduplication_id.Metrics.{record_no_message_id, rise}
use message_deduplication_id.Consumer.Message.{Codec, ConsumerRecord}
use message_deduplication_id.Consumer.Process.{
  Broker, Consumer, World, timed, measure, execute_and_commit, skip, process_claimed, process_with,
  process_record,
}
use message_deduplication_id.Consumer.Process.Frame.{
  Frames, execute_and_commit-Preserves, skip-Preserves,
}

module _ (S : Store) (K : Codec) (B : Broker K) (self : Consumer)
    (handle : Value → Exec S.State Value) (sleep : ℕ → Exec S.State Unit) (label : String) where
  abbrev pub active : World S K B → ℕ
  active w = w.metrics.active_processing label

  -- No call of the processing moves the gauge, but for the two at its ends.
  gauge-Frames :
      (n : ℕ) (id : Option String) → Frames S K B self handle sleep (λ w. active w ≡ n) id
  gauge-Frames n id = record {
    of_handle = λ v. record { at = λ w h. h };
    of_sleep = λ ms. record { at = λ w h. h };
    of_claim = λ k e. record { at = λ w h. h };
    of_status = λ k e. record { at = λ w h. h };
    of_complete = λ k v e. record { at = λ w h. h };
    of_fail = λ k e n q. record { at = λ w h. h };
    of_broker = λ m. record { at = λ w h. h };
    of_counter = λ f same. record { at = λ w h. same label w.metrics ∙ h };
  }

  execute_and_commit-Keeps :
      (r : ConsumerRecord K) (id : Option String)
      → Keeps active (execute_and_commit S K B self handle sleep r id)
  execute_and_commit-Keeps r id = record {
    at = λ w.
        (execute_and_commit-Preserves S K B self handle sleep (λ v. active v ≡ active w) id
            (gauge-Frames (active w) id) r).at
          w refl;
  }

  skip-Keeps :
      (r : ConsumerRecord K) (id : String) → Keeps active (skip S K B self handle sleep r id)
  skip-Keeps r id = record {
    at = λ w.
        (skip-Preserves S K B self handle sleep (λ v. active v ≡ active w) (some id)
            (gauge-Frames (active w) (some id)) r id refl).at
          w refl;
  }

  process_claimed-Keeps :
      (r : ConsumerRecord K) (id : String)
      → Keeps active (process_claimed S K B self handle sleep r id)
  unfolding process_claimed
  process_claimed-Keeps r id = record {
    at = λ w.
        let kept =
          (execute_and_commit-Keeps r (some id)).at
            (record w { metrics = rise r.topic w.metrics }) in
        ground arith;
  }

  process_with-Keeps :
      (r : ConsumerRecord K) (id : Option String)
      → Keeps active (process_with S K B self handle sleep r id)
  unfolding process_with record_no_message_id
  process_with-Keeps r none =
      Keeps-bind active {m = measure S K B (record_no_message_id r.topic)}
        (record { at = λ w. refl }) (λ _. execute_and_commit-Keeps r none)
  process_with-Keeps r (some id) =
      Keeps-bind active {m = timed S K B "claim" (S.claim id)} (record { at = λ w. refl })
        (λ b. Keeps-if active b (λ _. process_claimed-Keeps r id) (λ _. skip-Keeps r id))

  -- The gauge of active messages is back at its old value after each record, for every topic, whether
  -- the processing returns, raises or is cancelled, and whatever the store, the broker and `handle`
  -- do. It is the gauge as this consumer moves it.
  pub process_record-Keeps :
      (r : ConsumerRecord K) → Keeps active (process_record S K B self handle sleep r)
  unfolding process_record
  process_record-Keeps r =
      Keeps-bind active (record { at = λ w. refl }) (λ id. process_with-Keeps r id)
