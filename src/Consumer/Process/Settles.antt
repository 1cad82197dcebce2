-- ===== src/Consumer/Process/Settles.antt =====
-- What every way through the processing of a record adds to a count that is raised once when it is
-- done: the outcomes in the metrics, or the commits of the offset.
use message_deduplication_id.Prelude.{
  ℕ, zero, suc, ◌+◌, ◌*◌, String, Option, none, some, arith, inl, inr, leb, ltb, Bool-cases, Bool,
  refl,
}
use message_deduplication_id.Prelude.Exec.{Exn, Exec, Result, exn_name, exn_message, ◌>>◌}
use message_deduplication_id.Prelude.Exec.Gives.{
  Keeps, Keeps-pure, Keeps-try, Gives, Gives-same, Gives-after, Gives-try, Gives-if,
}
use message_deduplication_id.Dedup.{Value}
use message_deduplication_id.Dedup.Store.{Store}
use message_deduplication_id.Metrics.{
  record_processed, record_no_message_id, record_retry, record_error, rise, fall,
}
use message_deduplication_id.Consumer.Message.{Codec, ConsumerRecord, has_bytes, extract_message_id}
use message_deduplication_id.Consumer.Process.{
  Broker, Consumer, World, on_store, timed, measure, finally, non_empty_text, commit, complete,
  store_result, give_up, mark, reclaim, back_off, failed_attempt, attempt_loop, payload_of,
  execute_and_commit, skip, process_claimed, process_with, process_record,
}

module _ (S : Store) (K : Codec) (B : Broker K) (self : Consumer)
    (handle : Value → Exec S.State Value) (sleep : ℕ → Exec S.State Unit) where
  -- A number that the three ends of a record raise by one, and nothing else changes. Where `strict`,
  -- an end that raises leaves it too.
  pub record Settling (strict : Bool) (count : World S K B → ℕ) : Type 1 where
    pub store : {A : Type 0} (m : Exec S.State A) → Keeps count (on_store S K B m)
    pub timed :
        {A : Type 0} (operation : String) (m : Exec S.State A)
        → Keeps count (timed S K B operation m)
    pub no_id : (t : String) → Keeps count (measure S K B (record_no_message_id t))
    pub retry : (t : String) → Keeps count (measure S K B (record_retry t))
    pub error : (t e : String) → Keeps count (measure S K B (record_error t e))
    pub begins : (t : String) → Keeps count (measure S K B (rise t))
    pub ends :
        {m : Exec (World S K B) Unit} (t : String)
        → Gives strict count 1 m
        → Gives strict count 1 (finally S K B m (fall t))
    pub lift : {A : Type 0} (x : Result A) → Keeps {S = World S K B} count (λ w. (x, w))
    pub finished :
        (t : String)
        → Gives strict count 1
            (commit S K B self handle sleep >> measure S K B (record_processed t))
    pub dropped :
        (r : ConsumerRecord K) (l : Option Exn)
        → Gives strict count 1 (give_up S K B self handle sleep r l)
    pub skipped :
        (r : ConsumerRecord K) (id : String)
        → Gives strict count 1 (skip S K B self handle sleep r id)

  module _ (strict : Bool) (count : World S K B → ℕ) (H : Settling strict count) where
    Settled : Exec (World S K B) Unit → Type 0
    Settled m = Gives strict count 1 m

    store_result-Keeps :
        (r : ConsumerRecord K) (id : Option String) (v : Value)
        → Keeps count (store_result S K B self handle sleep r id v)
    unfolding store_result
    store_result-Keeps r none v = Keeps-pure count tt
    store_result-Keeps r (some id) v =
        Keeps-try count (H.timed "mark_completed" (S.mark_completed id v))
          (λ e. H.error r.topic (exn_name e)) (λ _. Keeps-pure count tt)

    complete-Gives :
        (r : ConsumerRecord K) (id : Option String) (v : Value)
        → Gives strict count 1 (complete S K B self handle sleep r id v)
    unfolding complete
    complete-Gives r id v =
        Gives-after strict count (store_result-Keeps r (non_empty_text S K B id) v)
          (λ _. H.finished r.topic)

    mark-Keeps :
        (id : Option String) (e : Exn) (n : ℕ) → Keeps count (mark S K B self handle sleep id e n)
    unfolding mark
    mark-Keeps none e n = Keeps-pure count tt
    mark-Keeps (some id) e n = H.timed "mark_failed" (S.mark_failed id (exn_message e) n)

    module _ (next : Exec (World S K B) Unit) (gn : Gives strict count 1 next) where
      reclaim-Gives :
          (r : ConsumerRecord K) (id : Option String) (e : Exn)
          → Gives strict count 1 (reclaim S K B self handle sleep r id e next)
      unfolding reclaim
      reclaim-Gives r none e = gn
      reclaim-Gives r (some id) e =
          Gives-after strict count (H.timed "claim" (S.claim id))
            (λ b. Gives-if strict count b gn (H.dropped r (some e)))

      back_off-Gives :
          (r : ConsumerRecord K) (id : Option String) (n : ℕ) (e : Exn)
          → Gives strict count 1 (back_off S K B self handle sleep r id n e next)
      unfolding back_off
      back_off-Gives r id n e =
          Gives-if strict count (ltb n self.config.max_retries)
            (Gives-after strict count (H.store (sleep (self.config.retry_backoff_ms * n)))
              (λ _. Gives-after strict count (H.retry r.topic) (λ _. reclaim-Gives r id e)))
            gn

      failed_attempt-Gives :
          (r : ConsumerRecord K) (id : Option String) (n : ℕ) (e : Exn)
          → Gives strict count 1 (failed_attempt S K B self handle sleep r id n e next)
      unfolding failed_attempt
      failed_attempt-Gives r id n e = Gives-after strict count (H.error r.topic (exn_name e)) (λ _.
          Gives-after strict count (mark-Keeps (non_empty_text S K B id) e n)
            (λ _. back_off-Gives r (non_empty_text S K B id) n e))

    attempt_loop-Gives :
        (fuel : ℕ) (r : ConsumerRecord K) (id : Option String) (v : Value) (attempts : ℕ)
        (l : Option Exn)
        → Gives strict count 1 (attempt_loop S K B self handle sleep fuel r id v attempts l)
    unfolding attempt_loop
    attempt_loop-Gives zero r id v attempts l = Gives-same strict count (λ w. refl) (H.dropped r l)
    attempt_loop-Gives (suc fuel) r id v attempts l =
        elim (Bool-cases (leb attempts self.config.max_retries)) [
          | inl more ↦
              Gives-same strict count (λ w. ground (arith, more))
                (Gives-try strict count (H.store (handle v))
                  (λ e.
                    failed_attempt-Gives _ (attempt_loop-Gives fuel r id v (attempts + 1) (some e))
                      r id attempts e)
                  (λ x. complete-Gives r id x))
          | inr over ↦ Gives-same strict count (λ w. ground (arith, over)) (H.dropped r l)
        ]

    execute_and_commit-Gives :
        (r : ConsumerRecord K) (id : Option String)
        → Gives strict count 1 (execute_and_commit S K B self handle sleep r id)
    unfolding execute_and_commit
    execute_and_commit-Gives r id =
        Gives-after strict count (H.lift (payload_of S K B self handle sleep (has_bytes K r.value)))
          (λ v. attempt_loop-Gives (self.config.max_retries + 1) r id v 1 none)

    process_with-Gives :
        (r : ConsumerRecord K) (id : Option String)
        → Gives strict count 1 (process_with S K B self handle sleep r id)
    unfolding process_with process_claimed
    process_with-Gives r none =
        Gives-after strict count (H.no_id r.topic) (λ _. execute_and_commit-Gives r none)
    process_with-Gives r (some id) = Gives-after strict count (H.timed "claim" (S.claim id)) (λ b.
        Gives-if strict count b
          (Gives-after strict count (H.begins r.topic)
            (λ _. H.ends r.topic (execute_and_commit-Gives r (some id))))
          (H.skipped r id))

    pub process_record-Gives :
        (r : ConsumerRecord K) → Gives strict count 1 (process_record S K B self handle sleep r)
    unfolding process_record
    process_record-Gives r =
        Gives-after strict count (H.lift (extract_message_id K r)) (λ id. process_with-Gives r id)
