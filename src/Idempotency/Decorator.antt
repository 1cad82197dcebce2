-- ===== src/Idempotency/Decorator.antt =====
-- `idempotent`, the decorator: the wrapper around a function `func`.
pub mod Bounded
pub mod Laws
pub mod Unstored
pub mod Exhaustion
use message_deduplication_id.Prelude.{
  ℕ, zero, suc, ◌+◌, ◌*◌, String, true, false, Option, none, some, List, [], ◌∷◌, ltb, leb,
  if◌then◌else◌,
}
use message_deduplication_id.Prelude.Exec.{
  Exn, exception, Result, ok, raised, Exec, pure, raise, ◌>>=◌, ◌>>◌, try_except, exn_message,
}
use message_deduplication_id.Prelude.Dict.{Dict}
use message_deduplication_id.Dedup.{Value, null, ProcessingStatus, DeduplicationConfig}
use message_deduplication_id.Dedup.Store.{Store}
use message_deduplication_id.Idempotency.Guard.{completed_record}

pub record Arguments : Type 0 where
  pub args : List Value
  pub kwargs : Dict Value

-- `str` is Python's on values. `sleep ms` is the wait of `asyncio.sleep`, in which others may run.
module _ (S : Store) (str : Value → String) (sleep : ℕ → Exec S.State Unit)
    (key_fn : Option (Arguments → Exec S.State String)) (config : DeduplicationConfig)
    (func : Arguments → Exec S.State Value) where
  abbrev no_key : Exn
  no_key =
      exception "ValueError"
        "@idempotent: cannot derive idempotency key — supply key_fn or pass the key as the first positional argument"

  first_key : List Value → Exec S.State String
  first_key [] = raise no_key
  first_key (a ∷ _) = pure (str a)

  unfoldable pub derive_key : Arguments → Exec S.State String
  unfolding first_key
  derive_key call = elim key_fn [ some f ↦ f call | none ↦ first_key call.args ]

  -- `raise last_exc`; raising None is a TypeError
  abbrev raise_last : Option Exn → Exec S.State Value
  raise_last (some e) = raise e
  raise_last none = raise (exception "TypeError" "exceptions must derive from BaseException")

  -- the part after `func` returned: an exception of the store is logged and dropped
  unfoldable pub complete : String → Value → Exec S.State Value
  complete key result =
      try_except (S.mark_completed key result) (λ _. pure result) (λ _. pure result)

  -- re-claim for the next attempt; a lost claim breaks out of the loop with the last exception
  reclaim : String → Exn → Exec S.State Value → Exec S.State Value
  reclaim key exc next = do reclaimed ← S.claim key; if reclaimed then next else raise exc

  back_off : String → ℕ → Exn → Exec S.State Value → Exec S.State Value
  unfolding reclaim
  back_off key attempts exc next =
      if ltb attempts config.max_retries
      then sleep (config.retry_backoff_ms * attempts) >> reclaim key exc next
      else next

  -- the `except` branch; `next` is the loop from `continue` on
  unfoldable pub failed_attempt : String → ℕ → Exn → Exec S.State Value → Exec S.State Value
  unfolding back_off
  failed_attempt key attempts exc next =
      S.mark_failed key (exn_message exc) attempts >> back_off key attempts exc next

  -- The `while` loop, on fuel: a round has a smaller `max_retries + 1 - attempts`.
  unfoldable pub attempt_loop : ℕ → Arguments → String → ℕ → Option Exn → Exec S.State Value
  unfolding complete failed_attempt
  attempt_loop zero call key attempts last_exc s = raise_last last_exc s
  attempt_loop (suc fuel) call key attempts last_exc s = elim (leb attempts config.max_retries) [
    | false ↦ raise_last last_exc s
    | true ↦
        try_except (func call)
          (λ exc.
            failed_attempt key attempts exc (attempt_loop fuel call key (attempts + 1) (some exc)))
          (λ result. complete key result) s
  ]

  -- the cached result of a COMPLETED record, or a claim
  unfoldable pub after_status : Arguments → String → Option ProcessingStatus → Exec S.State Value
  after_status call key (some r) = pure r.result
  after_status call key none = do
    claimed ← S.claim key
    if claimed then attempt_loop (config.max_retries + 1) call key 1 none else pure null

  unfoldable pub wrapper : Arguments → Exec S.State Value
  wrapper call = do
    key ← derive_key call
    existing ← S.get_status key
    after_status call key (completed_record existing)
