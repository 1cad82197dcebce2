-- ===== src/Dedup/Store.antt =====
-- src/dedup/store.py: the methods of a backend over an unknown state, and the contract that the
-- clients of a store rely on.
use message_deduplication_id.Prelude.{ℕ, String, ◌≡◌, ◌≢◌, Bool, Option, some, ◌==◌, if◌then◌else◌}
use message_deduplication_id.Prelude.Exec.{Exec, ok}
use message_deduplication_id.Dedup.{Value, ProcessingStatus}
use message_deduplication_id.Dedup.Lifecycle.{
  Phase, running, phase, Rules, claimable, spec_claim, spec_complete, spec_fail,
}

pub record Store : Type 1 where
  pub State : Type 0
  pub claim : String → Exec State Bool
  pub is_duplicate : String → Exec State Bool
  pub mark_completed : String → Value → Exec State Unit
  pub mark_failed : String → String → ℕ → Exec State Unit
  pub get_status : String → Exec State (Option ProcessingStatus)
  pub delete : String → Exec State Unit
  pub close : Exec State Unit

-- `view s id` is the life of the message `id`. `Up` says that the backend answers and is well
-- formed, and `Storable` which results it can keep.
-- `mark_failed` is promised to follow the lifecycle only while the record is PROCESSING.
pub record Contract (S : Store) : Type 1 where
  pub view : S.State → String → Option Phase
  pub rules : S.State → Rules
  pub now : S.State → ℕ
  pub Up : S.State → Type 0
  pub Storable : Value → Type 0
  pub claim_answer :
      (id : String) (s : S.State)
      → Up s
      → (S.claim id s).0 ≡ ok (claimable (rules s) (now s) (view s id))
  pub claim_view :
      (id j : String) (s : S.State)
      → Up s
      → view (S.claim id s).1 j
        ≡ (if j == id then spec_claim (rules s) (now s) (view s id) else view s j)
  pub claim_keeps :
      (id : String) (s : S.State)
      → Up s
      → Up (S.claim id s).1 × (rules (S.claim id s).1 ≡ rules s) × (now (S.claim id s).1 ≡ now s)
  pub complete_answer :
      (id : String) (v : Value) (s : S.State)
      → Up s
      → Storable v
      → (S.mark_completed id v s).0 ≡ ok tt
  pub complete_view :
      (id j : String) (v : Value) (s : S.State)
      → Up s
      → Storable v
      → view (S.mark_completed id v s).1 j
        ≡ (if j == id then spec_complete v (view s id) else view s j)
  pub complete_keeps :
      (id : String) (v : Value) (s : S.State)
      → Up s
      → Up (S.mark_completed id v s).1
        × (rules (S.mark_completed id v s).1 ≡ rules s)
        × (now (S.mark_completed id v s).1 ≡ now s)
  pub fail_answer :
      (id e : String) (n : ℕ) (s : S.State) → Up s → (S.mark_failed id e n s).0 ≡ ok tt
  pub fail_view :
      (id j e : String) (n m : ℕ) (l : Option ℕ) (s : S.State)
      → Up s
      → view s id ≡ some (running m l)
      → view (S.mark_failed id e n s).1 j ≡ (if j == id then spec_fail n (view s id) else view s j)
  pub fail_keeps :
      (id e : String) (n : ℕ) (s : S.State)
      → Up s
      → Up (S.mark_failed id e n s).1
        × (rules (S.mark_failed id e n s).1 ≡ rules s)
        × (now (S.mark_failed id e n s).1 ≡ now s)
  -- A call for one message leaves the others alone, whatever it does to its own.
  pub complete_other :
      (id j : String) (v : Value) (s : S.State)
      → id ≢ j
      → Up s
      → view (S.mark_completed id v s).1 j ≡ view s j
  pub fail_other :
      (id j e : String) (n : ℕ) (s : S.State)
      → id ≢ j
      → Up s
      → view (S.mark_failed id e n s).1 j ≡ view s j
  pub status_answer :
      (id : String) (s : S.State)
      → Up s
      → (r : Option ProcessingStatus) × (S.get_status id s ≡ (ok r, s)) × (phase r ≡ view s id)
