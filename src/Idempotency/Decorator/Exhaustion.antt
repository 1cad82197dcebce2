-- ===== src/Idempotency/Decorator/Exhaustion.antt =====
-- A function that fails at every attempt, over a store that keeps its contract.
use message_deduplication_id.Prelude.{
  ℕ, zero, suc, ◌+◌, ◌*◌, ◌≤◌, ◌<◌, String, ◌≡◌, refl, true, Option, some, arith,
}
use message_deduplication_id.Prelude.Exec.{Exn, exception, Result, ok, raised, Exec, exn_message}
use message_deduplication_id.Dedup.{Value, DeduplicationConfig}
use message_deduplication_id.Dedup.Lifecycle.{broken}
use message_deduplication_id.Dedup.Store.{Store, Contract}
use message_deduplication_id.Idempotency.Guard.Laws.{Leaves}
use message_deduplication_id.Idempotency.Decorator.{
  Arguments, failed_attempt, attempt_loop, wrapper,
}
use message_deduplication_id.Idempotency.Decorator.Laws.{Keyed}

module _ (S : Store) (C : Contract S) (str : Value → String) (sleep : ℕ → Exec S.State Unit)
    (key_fn : Option (Arguments → Exec S.State String)) (config : DeduplicationConfig)
    (call : Arguments) (key : String) (func : Arguments → Exec S.State Value) where
  abbrev Quiet : S.State → S.State → Type 0
  Quiet = Leaves S C key

  -- Every attempt raises an exception, and neither it nor a wait touches this message.
  pub record Fails : Type 0 where
    pub attempt :
        (s : S.State)
        → C.Up s
        → (name : String) × (message : String) × (t : S.State) × (func call s
            ≡ (raised (exception name message), t))
          × Quiet s t
    pub wait :
        (ms : ℕ) (s : S.State) → C.Up s → (t : S.State) × (sleep ms s ≡ (ok tt, t)) × Quiet s t

  -- The store is set up with the decorator's limits, and retries failures.
  pub record Tries (s : S.State) : Type 0 where
    pub limit : (C.rules s).max_retries ≡ config.max_retries
    pub retries : (C.rules s).retry_failed ≡ true

  -- The call ended with the exception that its last attempt raised, from `entry`, in the state after
  -- `mark_failed` with the text of that exception and with `max_retries`: the record is FAILED.
  pub record Spent (r : Result Value × S.State) : Type 0 where
    pub name : String
    pub message : String
    pub entry : S.State
    pub last : S.State
    pub attempt : func call entry ≡ (raised (exception name message), last)
    pub ends :
        r ≡ (raised (exception name message), (S.mark_failed key message config.max_retries last).1)
    pub up : C.Up r.1
    pub tries : Tries r.1
    pub spent : C.view r.1 key ≡ some (broken config.max_retries)

  abbrev pub loop : ℕ → ℕ → Option Exn → Exec S.State Value
  loop fuel attempts l = attempt_loop S str sleep key_fn config func fuel call key attempts l

  pub loop-over :
      (fuel attempts : ℕ) (e : Exn) (s : S.State)
      → config.max_retries < attempts
      → loop fuel attempts (some e) s ≡ (raised e, s)
  unfolding attempt_loop
  loop-over zero attempts e s h = refl
  loop-over (suc fuel) attempts e s h = ground arith

  abbrev pub failing : ℕ → Exn → Exec S.State Value → Exec S.State Value
  failing attempts e next = failed_attempt S str sleep key_fn config func key attempts e next

  pub loop-raised :
      (fuel attempts : ℕ) (l : Option Exn) (name message : String) (s t : S.State)
      → attempts ≤ config.max_retries
      → func call s ≡ (raised (exception name message), t)
      → loop (suc fuel) attempts l s
        ≡ failing attempts
            (exception name message)
            (loop fuel (attempts + 1) (some (exception name message)))
            t
  unfolding attempt_loop
  loop-raised fuel attempts l name message s t le h = ground arith

  pub failing-last :
      (attempts : ℕ) (e : Exn) (next : Exec S.State Value) (s : S.State)
      → C.Up s
      → attempts ≡ config.max_retries
      → failing attempts e next s ≡ next (S.mark_failed key (exn_message e) attempts s).1
  unfolding failed_attempt
  failing-last attempts e next s up h =
      ground (arith, C.fail_answer key (exn_message e) attempts s up)

  pub failing-again :
      (attempts : ℕ) (e : Exn) (next : Exec S.State Value) (s t : S.State)
      → C.Up s
      → C.Up t
      → attempts < config.max_retries
      → sleep (config.retry_backoff_ms * attempts) (S.mark_failed key (exn_message e) attempts s).1
        ≡ (ok tt, t)
      → (S.claim key t).0 ≡ ok true
      → failing attempts e next s ≡ next (S.claim key t).1
  unfolding failed_attempt
  failing-again attempts e next s t up up' h slept won =
      ground (arith, C.fail_answer key (exn_message e) attempts s up)

  module _ (keyed : Keyed S C str sleep key_fn config call key func) where
    abbrev pub run : Exec S.State Value
    run = wrapper S str sleep key_fn config func call
