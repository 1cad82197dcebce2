-- ===== src/Dedup/Races.antt =====
-- Callers that race for one message. Their calls reach the store one at a time, in any order and
-- with any waits between them; the race is the sequence of those calls.
pub mod Winner
use message_deduplication_id.Prelude.{
  ℕ, ◌+◌, ◌≤◌, ◌<◌, String, ◌≡◌, refl, ◌∙◌, ◌⊎◌, inl, inr, Bool, true, false, ◌&&◌, some, arith,
  ◌==◌, ◌≢◌, Option, Bool-cases, string_discrete, if◌then◌else◌,
}
use mathlib.Core.Path.{subst}
use native.Mathlib.Nat.{add_assoc}
use message_deduplication_id.Prelude.Exec.{Result, ok, raised}
use message_deduplication_id.Dedup.Lifecycle.{
  Phase, running, claimable, spec_claim, attempts_so_far, Rules,
}
use message_deduplication_id.Dedup.Store.{Store, Contract}

-- 1 if a claim of `k` with this answer is a win for `id`.
abbrev pub win : String → String → Result Bool → ℕ
win id k (ok b) = if id == k && b then 1 else 0
win id k (raised e) = 0

pub spec_claim_wins :
    (c : Rules) (now : ℕ) (p : Option Phase)
    → claimable c now p ≡ true
    → spec_claim c now p ≡ some (running (attempts_so_far p + 1) (some (now + c.lease)))
unfolding spec_claim
spec_claim_wins c now p h = rw h

pub spec_claim_loses :
    (c : Rules) (now : ℕ) (p : Option Phase) → claimable c now p ≡ false → spec_claim c now p ≡ p
unfolding spec_claim
spec_claim_loses c now p h = rw h

pub leased_not_claimable :
    (c : Rules) (now a until : ℕ)
    → now < until
    → claimable c now (some (running a (some until))) ≡ false
unfolding claimable
leased_not_claimable c now a until h = ground arith

pub win_elsewhere : (id k : String) (r : Result Bool) → id ≢ k → win id k r ≡ 0
win_elsewhere id k (ok b) ne = ground arith
win_elsewhere id k (raised e) ne = refl

pub win_here : (id : String) (b : Bool) → win id id (ok b) ≡ (if b then 1 else 0)
win_here id b = ground arith

module _ (S : Store) (C : Contract S) where
  -- Time passes, and no record reaches the end of its life.
  pub record Waits (s t : S.State) : Type 0 where
    pub up : C.Up t
    pub rules : C.rules t ≡ C.rules s
    pub views : (k : String) → C.view t k ≡ C.view s k
    pub later : C.now s ≤ C.now t

  -- `Race id s n t`: calls lead from `s` to `t`, and `n` of them won the message `id`.
  pub data Race (id : String) (s : S.State) : ℕ → S.State → Type 0 where
    start : Race id s 0 s
    claims :
        {n : ℕ} {t : S.State} (k : String)
        → Race id s n t
        → Race id s (n + win id k (S.claim k t).0) (S.claim k t).1
    waits : {n : ℕ} {t u : S.State} → Race id s n t → Waits t u → Race id s n u
