-- ===== src/Idempotency/Decorator/Unstored.antt =====
-- A decorated call whose function returns and whose result cannot be stored.
use native.Mathlib.Numerals.{add-one}
use message_deduplication_id.Prelude.{
  ℕ, suc, ◌+◌, ◌≤◌, String, ◌≡◌, ◌∙◌, inl, inr, true, false, Option, none, leb, arith, Bool-cases,
  if◌then◌else◌,
}
use message_deduplication_id.Prelude.Exec.{Exn, exception, ok, raised, Exec}
use message_deduplication_id.Dedup.{Value, null, DeduplicationConfig}
use message_deduplication_id.Dedup.Lifecycle.{claimable, spec_claim}
use message_deduplication_id.Dedup.Store.{Store, Contract}
use message_deduplication_id.Idempotency.Guard.Laws.{is_done, Leaves}
use message_deduplication_id.Idempotency.Decorator.{Arguments, attempt_loop}
use message_deduplication_id.Idempotency.Decorator.Laws.{Keyed, run, wrapper-claimed, wrapper-lost}

module _ (S : Store) (C : Contract S) (str : Value → String) (sleep : ℕ → Exec S.State Unit)
    (key_fn : Option (Arguments → Exec S.State String)) (config : DeduplicationConfig)
    (call : Arguments) (key : String) where
  loop-unstored :
      (func : Arguments → Exec S.State Value) (fuel attempts : ℕ) (l : Option Exn) (v : Value)
      (name message : String) (s t u : S.State)
      → attempts ≤ config.max_retries
      → func call s ≡ (ok v, t)
      → S.mark_completed key v t ≡ (raised (exception name message), u)
      → attempt_loop S str sleep key_fn config func (suc fuel) call key attempts l s ≡ (ok v, u)
  unfolding attempt_loop
  loop-unstored func fuel attempts l v name message s t u le returned refused = ground arith

  -- The record of a claim that was won can be claimed again when its lease is over.
  held-leb :
      (s u later : S.State)
      → C.Up s
      → claimable (C.rules s) (C.now s) (C.view s key) ≡ true
      → Leaves S C key (S.claim key s).1 u
      → Leaves S C key u later
      → claimable (C.rules later) (C.now later) (C.view later key)
        ≡ leb (C.now s + (C.rules s).lease) (C.now later)
  unfolding claimable spec_claim
  held-leb s u later up free quiet untouched =
      ground (arith, C.claim_view key key s up, quiet.view, untouched.view)

  held-not_done :
      (s u later : S.State)
      → C.Up s
      → claimable (C.rules s) (C.now s) (C.view s key) ≡ true
      → Leaves S C key (S.claim key s).1 u
      → Leaves S C key u later
      → is_done (C.view later key) ≡ false
  unfolding spec_claim is_done
  held-not_done s u later up free quiet untouched =
      ground (arith, C.claim_view key key s up, quiet.view, untouched.view)

  module _ (func other : Arguments → Exec S.State Value)
      (keyed : Keyed S C str sleep key_fn config call key func)
      (other_keyed : Keyed S C str sleep key_fn config call key other) where
    run-unstored :
        (v : Value) (name message : String) (s t u : S.State)
        → C.Up s
        → claimable (C.rules s) (C.now s) (C.view s key) ≡ true
        → 1 ≤ config.max_retries
        → func call (S.claim key s).1 ≡ (ok v, t)
        → S.mark_completed key v t ≡ (raised (exception name message), u)
        → run S C str sleep key_fn config call key func keyed s ≡ (ok v, u)
    run-unstored v name message s t u up free some_tries returned refused =
        wrapper-claimed S C str sleep key_fn config call key func keyed s up free
        ∙ rw add-one (
            loop-unstored func config.max_retries 1 none v name message (S.claim key s).1 t u
              some_tries returned refused)

    -- A first attempt that returns, and then `mark_completed` raises an Exception and leaves the record
    -- as it is: the caller gets the value, and the function is not run again by this call. A later call
    -- with this key, of any function, with nothing done to the record in between: until the lease of
    -- the claim is over it runs nothing and returns None, and from then on it wins a claim and starts
    -- the attempts anew. It holds for every store that keeps its contract.
    pub wrapper_unstored :
        (v : Value) (name message : String) (s t u later : S.State)
        → C.Up s
        → claimable (C.rules s) (C.now s) (C.view s key) ≡ true
        → 1 ≤ config.max_retries
        → func call (S.claim key s).1 ≡ (ok v, t)
        → S.mark_completed key v t ≡ (raised (exception name message), u)
        → Leaves S C key (S.claim key s).1 u
        → Leaves S C key u later
        → (run S C str sleep key_fn config call key func keyed s ≡ (ok v, u))
          × (run S C str sleep key_fn config call key other other_keyed later ≡ (
              if leb (C.now s + (C.rules s).lease) (C.now later)
              then attempt_loop S str sleep key_fn config other
                  (config.max_retries + 1)
                  call
                  key
                  1
                  none
                  (S.claim key later).1
              else (ok null, (S.claim key later).1)))
    wrapper_unstored v name message s t u later up free some_tries returned refused quiet
          untouched =
        let again = held-leb s u later up free quiet untouched in
        (
          run-unstored v name message s t u up free some_tries returned refused,
          elim (Bool-cases (claimable (C.rules later) (C.now later) (C.view later key))) [
            | inl won ↦
                wrapper-claimed S C str sleep key_fn config call key other other_keyed later
                  untouched.up won
                ∙ ground (arith, again)
            | inr lost ↦
                wrapper-lost S C str sleep key_fn config call key other other_keyed later
                  untouched.up (held-not_done s u later up free quiet untouched) lost
                ∙ ground (arith, again)
          ],
        )
