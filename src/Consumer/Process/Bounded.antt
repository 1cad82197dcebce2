-- ===== src/Consumer/Process/Bounded.antt =====
-- How often the consumer runs `handle` for one record, over any store and any broker.
use message_deduplication_id.Prelude.{
  ℕ, zero, suc, ◌+◌, ◌-◌, ◌*◌, String, Option, none, some, arith, inl, inr, leb, ltb, leb→le,
  Bool-cases,
}
use message_deduplication_id.Prelude.Exec.{Exn, Exec, Result, pure, exn_name, exn_message}
use message_deduplication_id.Prelude.Exec.Adds.{
  Adds, Adds-pure, Adds-weaken, Adds-bind_zero, Adds-try, Adds-if,
}
use message_deduplication_id.Dedup.{Value}
use message_deduplication_id.Dedup.Store.{Store}
use message_deduplication_id.Metrics.{
  Metrics, record_processed, record_no_message_id, record_dlq, record_retry, record_error, rise,
  fall,
}
use message_deduplication_id.Consumer.Message.{Codec, ConsumerRecord, has_bytes, extract_message_id}
use message_deduplication_id.Consumer.Process.{
  Broker, Consumer, World, on_store, timed, on_broker, measure, finally, non_empty_text, commit,
  send_to_dlq, complete, store_result, give_up, mark, reclaim, back_off, failed_attempt, payload_of,
  skip, skip_counter, dlq_payload, error_text, attempt_loop, execute_and_commit, process_claimed,
  process_with, process_record,
}

module _ (S : Store) (K : Codec) (B : Broker K) (self : Consumer)
    (handle : Value → Exec S.State Value) (sleep : ℕ → Exec S.State Unit) where
  -- `calls` counts the runs of `handle`: a run adds one at most, and no other call adds to it.
  pub record Counts (calls : S.State → ℕ) : Type 0 where
    pub of_handle : (v : Value) → Adds calls 1 (handle v)
    pub of_sleep : (ms : ℕ) → Adds calls 0 (sleep ms)
    pub of_claim : (k : String) → Adds calls 0 (S.claim k)
    pub of_status : (k : String) → Adds calls 0 (S.get_status k)
    pub of_complete : (k : String) (v : Value) → Adds calls 0 (S.mark_completed k v)
    pub of_fail : (k e : String) (n : ℕ) → Adds calls 0 (S.mark_failed k e n)

  module _ (calls : S.State → ℕ) (N : Counts calls) where
    abbrev pub runs : World S K B → ℕ
    runs w = calls w.store

    on_store-Adds :
        {A : Type 0} {m : Exec S.State A} {n : ℕ} → Adds calls n m → Adds runs n (on_store S K B m)
    on_store-Adds a = record { at = λ w. a.at w.store }

    on_broker-Adds : {A : Type 0} (m : Exec B.State A) → Adds runs 0 (on_broker S K B m)
    on_broker-Adds m = record { at = λ w. omega arith }

    measure-Adds : (f : Metrics → Metrics) → Adds runs 0 (measure S K B f)
    measure-Adds f = record { at = λ w. omega arith }

    finally-Adds :
        {A : Type 0} {m : Exec (World S K B) A} {n : ℕ} (f : Metrics → Metrics)
        → Adds runs n m
        → Adds runs n (finally S K B m f)
    finally-Adds f a = record { at = λ w. a.at w }

    timed-Adds :
        {A : Type 0} {m : Exec S.State A} {n : ℕ} {operation : String}
        → Adds calls n m
        → Adds runs n (timed S K B operation m)
    timed-Adds a = record { at = λ w. a.at w.store }

    commit-Adds : Adds runs 0 (commit S K B self handle sleep)
    unfolding commit
    commit-Adds =
        Adds-if runs self.has_consumer (λ _. on_broker-Adds B.commit) (λ _. Adds-pure runs tt)

    send_to_dlq-Adds :
        (r : ConsumerRecord K) (e : String) → Adds runs 0 (send_to_dlq S K B self handle sleep r e)
    unfolding send_to_dlq
    send_to_dlq-Adds r e =
        Adds-if runs self.has_dlq_producer (λ _. to_topic (non_empty_text S K B self.dlq_topic))
          (λ _. Adds-pure runs tt)
      where
        to_topic :
            (t : Option String)
            → Adds runs 0 (elim t [
              | none ↦ pure tt
              | some topic ↦
                  on_broker S K B
                    (B.send_and_wait topic (dlq_payload S K B self handle sleep r e) r.key)
            ])
        to_topic none = Adds-pure runs tt
        to_topic (some topic) = on_broker-Adds _

    give_up-Adds :
        (r : ConsumerRecord K) (l : Option Exn) → Adds runs 0 (give_up S K B self handle sleep r l)
    unfolding give_up
    give_up-Adds r l = Adds-bind_zero runs (measure-Adds (record_dlq r.topic)) (λ _.
        Adds-bind_zero runs (send_to_dlq-Adds r (error_text S K B self handle sleep l))
          (λ _. commit-Adds))

    store_result-Adds :
        (r : ConsumerRecord K) (id : Option String) (v : Value)
        → Adds runs 0 (store_result S K B self handle sleep r id v)
    unfolding store_result
    store_result-Adds r none v = Adds-pure runs tt
    store_result-Adds r (some id) v = Adds-weaken runs (omega arith) (
        Adds-try runs (timed-Adds (N.of_complete id v))
          (λ e. measure-Adds (record_error r.topic (exn_name e))) (λ _. Adds-pure runs tt))

    complete-Adds :
        (r : ConsumerRecord K) (id : Option String) (v : Value)
        → Adds runs 0 (complete S K B self handle sleep r id v)
    unfolding complete
    complete-Adds r id v =
        Adds-bind_zero runs (store_result-Adds r (non_empty_text S K B id) v)
          (λ _. Adds-bind_zero runs commit-Adds (λ _. measure-Adds (record_processed r.topic)))

    mark-Adds :
        (id : Option String) (e : Exn) (n : ℕ) → Adds runs 0 (mark S K B self handle sleep id e n)
    unfolding mark
    mark-Adds none e n = Adds-pure runs tt
    mark-Adds (some id) e n = timed-Adds (N.of_fail id (exn_message e) n)

    module _ {m : ℕ} (next : Exec (World S K B) Unit) (an : Adds runs m next) where
      reclaim-Adds :
          (r : ConsumerRecord K) (id : Option String) (e : Exn)
          → Adds runs m (reclaim S K B self handle sleep r id e next)
      unfolding reclaim
      reclaim-Adds r none e = an
      reclaim-Adds r (some id) e = Adds-bind_zero runs (timed-Adds (N.of_claim id)) (λ b.
          Adds-if runs b (λ _. an) (λ _. Adds-weaken runs (omega arith) (give_up-Adds r (some e))))

      back_off-Adds :
          (r : ConsumerRecord K) (id : Option String) (n : ℕ) (e : Exn)
          → Adds runs m (back_off S K B self handle sleep r id n e next)
      unfolding back_off
      back_off-Adds r id n e =
          Adds-if runs (ltb n self.config.max_retries)
            (λ _.
              Adds-bind_zero runs (on_store-Adds (N.of_sleep (self.config.retry_backoff_ms * n)))
                (λ _.
                  Adds-bind_zero runs (measure-Adds (record_retry r.topic))
                    (λ _. reclaim-Adds r id e)))
            (λ _. an)

      failed_attempt-Adds :
          (r : ConsumerRecord K) (id : Option String) (n : ℕ) (e : Exn)
          → Adds runs m (failed_attempt S K B self handle sleep r id n e next)
      unfolding failed_attempt
      failed_attempt-Adds r id n e =
          Adds-bind_zero runs (measure-Adds (record_error r.topic (exn_name e))) (λ _.
            Adds-bind_zero runs (mark-Adds (non_empty_text S K B id) e n)
              (λ _. back_off-Adds r (non_empty_text S K B id) n e))

    attempt_loop-Adds :
        (fuel : ℕ) (r : ConsumerRecord K) (id : Option String) (v : Value) (attempts : ℕ)
        (l : Option Exn)
        → Adds runs
            (self.config.max_retries + 1 - attempts)
            (attempt_loop S K B self handle sleep fuel r id v attempts l)
    unfolding attempt_loop
    attempt_loop-Adds zero r id v attempts l = record {
      at = λ w. omega (arith, (give_up-Adds r l).at w);
    }
    attempt_loop-Adds (suc fuel) r id v attempts l = record {
      at = λ w. elim (Bool-cases (leb attempts self.config.max_retries)) [
        | inl more ↦
            rw (more, attempt_loop)
              (omega (
                arith,
                (Adds-try runs {k = self.config.max_retries - attempts}
                      (on_store-Adds (N.of_handle v))
                      (λ e.
                        failed_attempt-Adds _
                          (Adds-weaken runs (omega arith)
                            (attempt_loop-Adds fuel r id v (attempts + 1) (some e)))
                          r id attempts e)
                      (λ x. Adds-weaken runs (omega arith) (complete-Adds r id x))).at
                    w,
                leb→le attempts self.config.max_retries more,
              ))
        | inr over ↦ rw (over, attempt_loop) (omega (arith, (give_up-Adds r l).at w))
      ];
    }

    lift-Adds : {A : Type 0} (x : Result A) → Adds {S = World S K B} runs 0 (λ w. (x, w))
    lift-Adds x = record { at = λ w. omega arith }

    execute_and_commit-Adds :
        (r : ConsumerRecord K) (id : Option String)
        → Adds runs self.config.max_retries (execute_and_commit S K B self handle sleep r id)
    unfolding execute_and_commit
    execute_and_commit-Adds r id =
        Adds-bind_zero runs (lift-Adds (payload_of S K B self handle sleep (has_bytes K r.value)))
          (λ v.
            Adds-weaken runs (omega arith)
              (attempt_loop-Adds (self.config.max_retries + 1) r id v 1 none))

    skip-Adds :
        (r : ConsumerRecord K) (id : String) → Adds runs 0 (skip S K B self handle sleep r id)
    unfolding skip
    skip-Adds r id = Adds-bind_zero runs (timed-Adds (N.of_status id)) (λ q.
        Adds-bind_zero runs (measure-Adds (skip_counter S K B self handle sleep r q))
          (λ _. commit-Adds))

    process_with-Adds :
        (r : ConsumerRecord K) (id : Option String)
        → Adds runs self.config.max_retries (process_with S K B self handle sleep r id)
    unfolding process_with process_claimed
    process_with-Adds r none =
        Adds-bind_zero runs (measure-Adds (record_no_message_id r.topic))
          (λ _. execute_and_commit-Adds r none)
    process_with-Adds r (some id) = Adds-bind_zero runs (timed-Adds (N.of_claim id)) (λ b.
        Adds-if runs b
          (λ _.
            Adds-bind_zero runs (measure-Adds (rise r.topic))
              (λ _. finally-Adds (fall r.topic) (execute_and_commit-Adds r (some id))))
          (λ _. Adds-weaken runs (omega arith) (skip-Adds r id)))

    -- One record runs `handle` at most `max_retries` times, whatever the store, the broker and
    -- `handle` do, and whether the processing returns or raises.
    pub process_record-Adds :
        (r : ConsumerRecord K)
        → Adds runs self.config.max_retries (process_record S K B self handle sleep r)
    unfolding process_record
    process_record-Adds r =
        Adds-bind_zero runs (lift-Adds (extract_message_id K r)) (λ id. process_with-Adds r id)
