-- ===== src/Consumer/Process/Frame.antt =====
-- What the processing of one record leaves alone: a property of the world that each call in it
-- preserves.
use message_deduplication_id.Prelude.{
  ℕ, zero, suc, ◌+◌, ◌*◌, String, ◌≡◌, refl, Option, none, some, arith, leb, ltb, Bool-cases, inl,
  inr,
}
use message_deduplication_id.Prelude.Exec.{Exn, Exec, pure, exn_name, exn_message}
use message_deduplication_id.Prelude.Exec.Preserves.{
  Preserves, Preserves-pure, Preserves-bind, Preserves-try, Preserves-if,
}
use message_deduplication_id.Dedup.{Value, ProcessingStatus}
use message_deduplication_id.Dedup.Store.{Store}
use message_deduplication_id.Metrics.{
  Metrics, record_processed, record_dlq, record_retry, record_error, record_duplicate,
  record_claim_lost,
}
use message_deduplication_id.Consumer.Message.{Codec, ConsumerRecord}
use message_deduplication_id.Consumer.Process.{
  Broker, Consumer, World, on_store, on_broker, timed, measure, non_empty_text, commit, send_to_dlq,
  dlq_payload, error_text, complete, store_result, give_up, mark, reclaim, back_off, failed_attempt,
  attempt_loop, execute_and_commit, skip, skip_counter,
}

-- A change of the metrics that moves no gauge.
abbrev pub IsCounter : (Metrics → Metrics) → Type 0
IsCounter f =
    (label : String) (m : Metrics) → (f m).active_processing label ≡ m.active_processing label

record_processed-IsCounter : (t : String) → IsCounter (record_processed t)
unfolding record_processed
record_processed-IsCounter t l m = refl

record_dlq-IsCounter : (t : String) → IsCounter (record_dlq t)
unfolding record_dlq
record_dlq-IsCounter t l m = refl

record_retry-IsCounter : (t : String) → IsCounter (record_retry t)
unfolding record_retry
record_retry-IsCounter t l m = refl

record_error-IsCounter : (t e : String) → IsCounter (record_error t e)
unfolding record_error
record_error-IsCounter t e l m = refl

module _ (S : Store) (K : Codec) (B : Broker K) (self : Consumer)
    (handle : Value → Exec S.State Value) (sleep : ℕ → Exec S.State Unit) where
  skip_counter-IsCounter :
      (r : ConsumerRecord K) (q : Option ProcessingStatus)
      → IsCounter (skip_counter S K B self handle sleep r q)
  unfolding record_claim_lost record_duplicate
  skip_counter-IsCounter r q l m = ground arith

  -- Each call of the processing preserves the property; the store is called for the message `id` only.
  pub record Frames (P : World S K B → Type 0) (id : Option String) : Type 0 where
    pub of_handle : (v : Value) → Preserves P (on_store S K B (handle v))
    pub of_sleep : (ms : ℕ) → Preserves P (on_store S K B (sleep ms))
    pub of_claim : (k : String) → id ≡ some k → Preserves P (timed S K B "claim" (S.claim k))
    pub of_status :
        (k : String) → id ≡ some k → Preserves P (timed S K B "get_status" (S.get_status k))
    pub of_complete :
        (k : String) (v : Value)
        → id ≡ some k
        → Preserves P (timed S K B "mark_completed" (S.mark_completed k v))
    pub of_fail :
        (k e : String) (n : ℕ)
        → id ≡ some k
        → Preserves P (timed S K B "mark_failed" (S.mark_failed k e n))
    pub of_broker : (m : Exec B.State Unit) → Preserves P (on_broker S K B m)
    pub of_counter : (f : Metrics → Metrics) → IsCounter f → Preserves P (measure S K B f)

  named_by : (id : Option String) (k : String) → non_empty_text S K B id ≡ some k → id ≡ some k
  named_by none k h = h
  named_by (some t) k h = ground arith

  module _ (P : World S K B → Type 0) (id : Option String) (F : Frames P id)
      (r : ConsumerRecord K) where
    commit-Preserves : Preserves P (commit S K B self handle sleep)
    unfolding commit
    commit-Preserves = Preserves-if P self.has_consumer (F.of_broker B.commit) (Preserves-pure P tt)

    to_topic :
        (t : Option String) (e : String)
        → Preserves P (elim t [
          | none ↦ pure tt
          | some topic ↦
              on_broker S K B
                (B.send_and_wait topic (dlq_payload S K B self handle sleep r e) r.key)
        ])
    to_topic none e = Preserves-pure P tt
    to_topic (some topic) e = F.of_broker _

    send_to_dlq-Preserves : (e : String) → Preserves P (send_to_dlq S K B self handle sleep r e)
    unfolding send_to_dlq
    send_to_dlq-Preserves e =
        Preserves-if P self.has_dlq_producer (to_topic (non_empty_text S K B self.dlq_topic) e)
          (Preserves-pure P tt)

    give_up-Preserves : (l : Option Exn) → Preserves P (give_up S K B self handle sleep r l)
    unfolding give_up
    give_up-Preserves l = Preserves-bind P (F.of_counter _ (record_dlq-IsCounter r.topic)) (λ _.
        Preserves-bind P (send_to_dlq-Preserves (error_text S K B self handle sleep l))
          (λ _. commit-Preserves))

    error-Preserves : (e : Exn) → Preserves P (measure S K B (record_error r.topic (exn_name e)))
    error-Preserves e = F.of_counter _ (record_error-IsCounter r.topic (exn_name e))

    store_result-Preserves :
        (q : Option String) (v : Value)
        → ((k : String) → q ≡ some k → id ≡ some k)
        → Preserves P (store_result S K B self handle sleep r q v)
    unfolding store_result
    store_result-Preserves none v h = Preserves-pure P tt
    store_result-Preserves (some k) v h =
        Preserves-try P (F.of_complete k v (h k refl)) (λ e. error-Preserves e)
          (λ _. Preserves-pure P tt)

    complete-Preserves : (v : Value) → Preserves P (complete S K B self handle sleep r id v)
    unfolding complete
    complete-Preserves v =
        Preserves-bind P (store_result-Preserves (non_empty_text S K B id) v (named_by id)) (λ _.
          Preserves-bind P commit-Preserves
            (λ _. F.of_counter _ (record_processed-IsCounter r.topic)))

    mark-Preserves :
        (q : Option String) (e : Exn) (n : ℕ)
        → ((k : String) → q ≡ some k → id ≡ some k)
        → Preserves P (mark S K B self handle sleep q e n)
    unfolding mark
    mark-Preserves none e n h = Preserves-pure P tt
    mark-Preserves (some k) e n h = F.of_fail k (exn_message e) n (h k refl)

    module _ (next : Exec (World S K B) Unit) (kept : Preserves P next) where
      reclaim-Preserves :
          (q : Option String) (e : Exn)
          → ((k : String) → q ≡ some k → id ≡ some k)
          → Preserves P (reclaim S K B self handle sleep r q e next)
      unfolding reclaim
      reclaim-Preserves none e h = kept
      reclaim-Preserves (some k) e h =
          Preserves-bind P (F.of_claim k (h k refl))
            (λ b. Preserves-if P b kept (give_up-Preserves (some e)))

      back_off-Preserves :
          (q : Option String) (n : ℕ) (e : Exn)
          → ((k : String) → q ≡ some k → id ≡ some k)
          → Preserves P (back_off S K B self handle sleep r q n e next)
      unfolding back_off
      back_off-Preserves q n e h =
          Preserves-if P (ltb n self.config.max_retries)
            (Preserves-bind P (F.of_sleep (self.config.retry_backoff_ms * n)) (λ _.
              Preserves-bind P (F.of_counter _ (record_retry-IsCounter r.topic))
                (λ _. reclaim-Preserves q e h)))
            kept

      failed_attempt-Preserves :
          (n : ℕ) (e : Exn) → Preserves P (failed_attempt S K B self handle sleep r id n e next)
      unfolding failed_attempt
      failed_attempt-Preserves n e = Preserves-bind P (error-Preserves e) (λ _.
          Preserves-bind P (mark-Preserves (non_empty_text S K B id) e n (named_by id))
            (λ _. back_off-Preserves (non_empty_text S K B id) n e (named_by id)))

    attempt_loop-Preserves :
        (fuel : ℕ) (v : Value) (n : ℕ) (l : Option Exn)
        → Preserves P (attempt_loop S K B self handle sleep fuel r id v n l)
    unfolding attempt_loop
    attempt_loop-Preserves zero v n l = record { at = λ w h. (give_up-Preserves l).at w h }
    attempt_loop-Preserves (suc fuel) v n l = record {
      at = λ w h. elim (Bool-cases (leb n self.config.max_retries)) [
        | inl more ↦
            rw (more, attempt_loop)
              ((Preserves-try P (F.of_handle v)
                  (λ e.
                    failed_attempt-Preserves _ (attempt_loop-Preserves fuel v (n + 1) (some e)) n e)
                  (λ x. complete-Preserves x)).at
                w h)
        | inr over ↦ rw (over, attempt_loop) ((give_up-Preserves l).at w h)
      ];
    }

    pub execute_and_commit-Preserves : Preserves P (execute_and_commit S K B self handle sleep r id)
    unfolding execute_and_commit
    execute_and_commit-Preserves =
        Preserves-bind P (record { at = λ w h. h })
          (λ v. attempt_loop-Preserves (self.config.max_retries + 1) v 1 none)

    pub skip-Preserves : (k : String) → id ≡ some k → Preserves P (skip S K B self handle sleep r k)
    unfolding skip
    skip-Preserves k h = Preserves-bind P (F.of_status k h) (λ q.
        Preserves-bind P (F.of_counter _ (skip_counter-IsCounter r q)) (λ _. commit-Preserves))
