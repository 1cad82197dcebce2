-- ===== src/Idempotency/Decorator/Bounded.antt =====
-- How often a decorated call runs the function, over any store.
use message_deduplication_id.Prelude.{
  ℕ, zero, suc, ◌+◌, ◌-◌, ◌*◌, String, Option, none, some, arith, inl, inr, leb, ltb, leb→le,
  Bool-cases,
}
use message_deduplication_id.Prelude.Exec.{Exn, Exec, exn_message}
use message_deduplication_id.Prelude.Exec.Adds.{
  Adds, Adds-pure, Adds-raise, Adds-weaken, Adds-bind_zero, Adds-try, Adds-if,
}
use message_deduplication_id.Dedup.{Value, null, ProcessingStatus, DeduplicationConfig}
use message_deduplication_id.Dedup.Store.{Store}
use message_deduplication_id.Idempotency.Guard.{completed_record}
use message_deduplication_id.Idempotency.Decorator.{
  Arguments, derive_key, raise_last, complete, failed_attempt, attempt_loop, after_status, wrapper,
}

module _ (S : Store) (str : Value → String) (sleep : ℕ → Exec S.State Unit)
    (key_fn : Option (Arguments → Exec S.State String)) (config : DeduplicationConfig)
    (func : Arguments → Exec S.State Value) where
  -- `calls` counts the runs of `func`: a run adds one at most, and nothing else adds to it.
  pub record Counts (calls : S.State → ℕ) : Type 0 where
    pub of_func : (c : Arguments) → Adds calls 1 (func c)
    pub of_claim : (k : String) → Adds calls 0 (S.claim k)
    pub of_status : (k : String) → Adds calls 0 (S.get_status k)
    pub of_complete : (k : String) (v : Value) → Adds calls 0 (S.mark_completed k v)
    pub of_fail : (k e : String) (n : ℕ) → Adds calls 0 (S.mark_failed k e n)
    pub of_sleep : (ms : ℕ) → Adds calls 0 (sleep ms)
    pub of_key : (c : Arguments) → Adds calls 0 (derive_key S str sleep key_fn config func c)

  module _ (calls : S.State → ℕ) (K : Counts calls) where
    raise_last-Adds : (l : Option Exn) → Adds calls 0 (raise_last S str sleep key_fn config func l)
    raise_last-Adds none = Adds-raise calls _
    raise_last-Adds (some e) = Adds-raise calls e

    complete-Adds :
        (k : String) (v : Value) → Adds calls 0 (complete S str sleep key_fn config func k v)
    unfolding complete
    complete-Adds k v =
        Adds-weaken calls (omega arith)
          (Adds-try calls (K.of_complete k v) (λ _. Adds-pure calls v) (λ _. Adds-pure calls v))

    failed_attempt-Adds :
        (k : String) (n m : ℕ) (e : Exn) (next : Exec S.State Value)
        → Adds calls m next
        → Adds calls m (failed_attempt S str sleep key_fn config func k n e next)
    unfolding failed_attempt
    failed_attempt-Adds k n m e next an = Adds-bind_zero calls (K.of_fail k (exn_message e) n) (λ _.
        Adds-if calls (ltb n config.max_retries)
          (λ _. Adds-bind_zero calls (K.of_sleep (config.retry_backoff_ms * n)) (λ _.
            Adds-bind_zero calls (K.of_claim k) (λ b.
              Adds-if calls b (λ _. an)
                (λ _. Adds-weaken calls (omega arith) (Adds-raise calls e)))))
          (λ _. an))

    attempt_loop-Adds :
        (fuel : ℕ) (c : Arguments) (k : String) (attempts : ℕ) (l : Option Exn)
        → Adds calls
            (config.max_retries + 1 - attempts)
            (attempt_loop S str sleep key_fn config func fuel c k attempts l)
    unfolding attempt_loop
    attempt_loop-Adds zero c k attempts l = record {
      at = λ s. omega (arith, (raise_last-Adds l).at s);
    }
    attempt_loop-Adds (suc fuel) c k attempts l = record {
      at = λ s. elim (Bool-cases (leb attempts config.max_retries)) [
        | inl more ↦
            rw (more, attempt_loop)
              (omega (
                arith,
                (Adds-try calls {k = config.max_retries - attempts} (K.of_func c)
                      (λ e. failed_attempt-Adds k attempts _ e _ (
                        Adds-weaken calls (omega arith)
                          (attempt_loop-Adds fuel c k (attempts + 1) (some e))))
                      (λ v. Adds-weaken calls (omega arith) (complete-Adds k v))).at
                    s,
                leb→le attempts config.max_retries more,
              ))
        | inr over ↦ rw (over, attempt_loop) (omega (arith, (raise_last-Adds l).at s))
      ];
    }

    after_status-Adds :
        (c : Arguments) (k : String) (found : Option ProcessingStatus)
        → Adds calls config.max_retries (after_status S str sleep key_fn config func c k found)
    unfolding after_status
    after_status-Adds c k none = Adds-bind_zero calls (K.of_claim k) (λ b.
        Adds-if calls b
          (λ _.
            Adds-weaken calls (omega arith) (attempt_loop-Adds (config.max_retries + 1) c k 1 none))
          (λ _. Adds-weaken calls (omega arith) (Adds-pure calls null)))
    after_status-Adds c k (some r) = Adds-weaken calls (omega arith) (Adds-pure calls r.result)

    -- A decorated call runs the function at most `max_retries` times, whatever the store answers and
    -- whether the call returns or raises.
    pub wrapper-Adds :
        (c : Arguments) → Adds calls config.max_retries (wrapper S str sleep key_fn config func c)
    unfolding wrapper
    wrapper-Adds c = Adds-bind_zero calls (K.of_key c) (λ k.
        Adds-bind_zero calls (K.of_status k) (λ r. after_status-Adds c k (completed_record r)))
