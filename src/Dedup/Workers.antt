-- ===== src/Dedup/Workers.antt =====
-- Callers of one store that work on the same message, as the consumer, the guard and the decorator
-- do: claim, work, and mark the record. The store takes their calls one at a time, in any order.
pub mod Held
pub mod Exclusion
pub mod Late
use message_deduplication_id.Prelude.{
  ℕ, ◌+◌, ◌≤◌, ◌<◌, String, ◌≡◌, ◌≢◌, true, false, Option, none, some, eqb, arith, if◌then◌else◌,
}
use message_deduplication_id.Prelude.Exec.{ok}
use message_deduplication_id.Dedup.{Value}
use message_deduplication_id.Dedup.Lifecycle.{Rules}
use message_deduplication_id.Dedup.Store.{Store, Contract}

-- `f` with another value at `i`
abbrev pub set {ℓ} : {A : Type ℓ} → (ℕ → A) → ℕ → A → ℕ → A
set f i x j = if eqb j i then x else f j

pub set_self : (f : ℕ → Option ℕ) (i : ℕ) (x : Option ℕ) → set f i x i ≡ x
set_self f i x = ground arith

module _ (S : Store) (C : Contract S) (id : String) where
  -- `working i` is the end of the lease under which the caller `i` works on the message, and
  -- `completions` counts the completions of it.
  pub record Situation : Type 0 where
    pub store : S.State
    pub working : ℕ → Option ℕ
    pub completions : ℕ

  abbrev pub lease_end : S.State → ℕ
  lease_end s = C.now s + (C.rules s).lease

  -- Nobody works on the message, and nobody has completed it.
  abbrev pub idle : S.State → Situation
  idle s = record { store = s; working = λ i. none; completions = 0 }

  -- Time passes, or calls for other messages are made: the record of this one stays as it is.
  pub record Elsewhere (s t : S.State) : Type 0 where
    pub up : C.Up t
    pub rules : C.rules t ≡ C.rules s
    pub view : C.view t id ≡ C.view s id
    pub later : C.now s ≤ C.now t

  -- A caller marks its record while its lease runs.
  pub data Move (c : Situation) : Situation → Type 0 where
    wins :
        (i : ℕ)
        → c.working i ≡ none
        → (S.claim id c.store).0 ≡ ok true
        → Move c (record c {
          store = (S.claim id c.store).1;
          working = set c.working i (some (lease_end c.store));
        })
    loses : (S.claim id c.store).0 ≡ ok false → Move c (record c { store = (S.claim id c.store).1 })
    completes :
        (i until : ℕ) (v : Value)
        → c.working i ≡ some until
        → C.now c.store < until
        → C.Storable v
        → Move c (record c {
          store = (S.mark_completed id v c.store).1;
          working = set c.working i none;
          completions = c.completions + 1;
        })
    fails :
        (i until : ℕ) (error : String) (attempts : ℕ)
        → c.working i ≡ some until
        → C.now c.store < until
        → Move c (record c {
          store = (S.mark_failed id error attempts c.store).1;
          working = set c.working i none;
        })
    crashes : (i : ℕ) → Move c (record c { working = set c.working i none })
    others : (t : S.State) → Elsewhere c.store t → Move c (record c { store = t })

  pub data Reach (s : S.State) : Situation → Type 0 where
    begins : Reach s (idle s)
    moves : {c d : Situation} → Reach s c → Move c d → Reach s d
