-- ===== src/Dedup/Lifecycle/Safety.antt =====
-- The operations of the lifecycle against its transitions, and the transitions from COMPLETED.
use message_deduplication_id.Prelude.{
  ℕ, ◌≡◌, inl, inr, ◌&&◌, Option, none, some, arith, ltb, leb, Bool-cases,
}
use message_deduplication_id.Dedup.{Value}
use message_deduplication_id.Dedup.Lifecycle.{
  Phase, running, done, broken, passed, Rules, spec_claim, spec_complete, spec_fail, Step, begin,
  retry, take_over, finish, give_up, stay,
}

-- A successful claim is a transition out of a claimable state, under a fresh lease.
pub spec_claim-Step : (c : Rules) (now : ℕ) (p : Option Phase) → Step c now p (spec_claim c now p)
unfolding spec_claim
spec_claim-Step c now none = begin
spec_claim-Step c now (some (broken n)) =
    elim (Bool-cases (c.retry_failed && ltb n c.max_retries)) [
      | inl e ↦ rw e (retry (ground arith) (ground arith))
      | inr e ↦ rw e stay
    ]
spec_claim-Step c now (some (running n (some until))) = elim (Bool-cases (leb until now)) [
  | inl e ↦ rw e (take_over (ground arith))
  | inr e ↦ rw e stay
]
spec_claim-Step c now (some (running n none)) = stay
spec_claim-Step c now (some (done v)) = stay
spec_claim-Step c now (some passed) = stay

pub spec_complete-Step :
    (c : Rules) (now : ℕ) (v : Value) (p : Option Phase) → Step c now p (spec_complete v p)
unfolding spec_complete
spec_complete-Step c now v (some (running n l)) = finish
spec_complete-Step c now v _ = stay

pub spec_fail-Step : (c : Rules) (now n : ℕ) (p : Option Phase) → Step c now p (spec_fail n p)
unfolding spec_fail
spec_fail-Step c now n (some (running m l)) = give_up
spec_fail-Step c now n _ = stay

pub Step-done :
    {c : Rules} {now : ℕ} {p q : Option Phase} (v : Value)
    → Step c now p q
    → p ≡ some (done v)
    → q ≡ some (done v)
Step-done v begin e = cc
Step-done v (retry r h) e = cc
Step-done v (take_over h) e = cc
Step-done v finish e = cc
Step-done v give_up e = cc
Step-done v stay e = e

pub Step-along :
    {c : Rules} {now : ℕ} {p p' q q' : Option Phase}
    → p' ≡ p
    → q' ≡ q
    → Step c now p q
    → Step c now p' q'
Step-along e f st = rw (e, f) st
