-- ===== src/Idempotency/Guard/Laws.antt =====
-- What a use of the guard leaves in a store that keeps its contract, whatever else the body does.
use message_deduplication_id.Prelude.{
  ℕ, ◌+◌, String, ◌≡◌, refl, ◌∙◌, Bool, true, false, Option, none, some, arith,
}
use message_deduplication_id.Prelude.Exec.{Exn, ok, raised, Exec}
use message_deduplication_id.Dedup.{Value, null, ProcessingStatus}
use message_deduplication_id.Dedup.Lifecycle.{
  Phase, attempts_so_far, running, done, phase, Rules, claimable, spec_claim, spec_complete,
}
use message_deduplication_id.Dedup.Store.{Store, Contract}
use message_deduplication_id.Idempotency.Guard.{
  Guard, error_msg, completed_record, aenter, aexit, with_guard, new_guard,
}

-- A status that shows COMPLETED carries the result.
pub completed_record-done :
    (r : Option ProcessingStatus) (v : Value)
    → phase r ≡ some (done v)
    → (q : ProcessingStatus) × (completed_record r ≡ some q) × (q.result ≡ v)
completed_record-done none v h = absurd (cc)
completed_record-done (some q) v h = (q, ground arith, ground arith)

unfoldable pub is_done : Option Phase → Bool
is_done (some (done v)) = true
is_done _ = false

pub is_done-value : (p : Option Phase) → is_done p ≡ true → (v : Value) × (p ≡ some (done v))
unfolding is_done
is_done-value none h = absurd (cc)
is_done-value (some (done v)) h = (v, refl)
is_done-value (some _) h = absurd (cc)

pub completed_record-not_done :
    (r : Option ProcessingStatus) (p : Option Phase)
    → phase r ≡ p
    → is_done p ≡ false
    → completed_record r ≡ none
unfolding is_done
completed_record-not_done none p h e = refl
completed_record-not_done (some q) p h e = ground arith

-- What can be claimed is not COMPLETED.
pub claimable-not_done :
    (c : Rules) (now : ℕ) (p : Option Phase) → claimable c now p ≡ true → is_done p ≡ false
unfolding is_done claimable
claimable-not_done c now p h = ground arith

module _ (S : Store) (C : Contract S) (key : String) where
  -- A COMPLETED message: the guard takes the stored result, and neither claims nor writes.
  pub aenter-done :
      (v : Value) (s : S.State)
      → C.Up s
      → C.view s key ≡ some (done v)
      → aenter S (new_guard key) s ≡ (
        ok (record { key = key; already_processed = true; previous_result = v; result = null }),
        s,
      )
  unfolding aenter new_guard
  aenter-done v s up h =
      let (r, got, same) = C.status_answer key s up in
      let (q, e, kept) = completed_record-done r v (same ∙ h) in ground (arith, got, e, kept)

  -- A message that can be claimed: the guard holds the claim.
  pub aenter-claimed :
      (s : S.State)
      → C.Up s
      → claimable (C.rules s) (C.now s) (C.view s key) ≡ true
      → aenter S (new_guard key) s ≡ (ok (new_guard key), (S.claim key s).1)
  unfolding aenter new_guard
  aenter-claimed s up free =
      let (r, got, same) = C.status_answer key s up in
      let fresh =
        completed_record-not_done r _ same
          (claimable-not_done (C.rules s) (C.now s) (C.view s key) free) in
      ground (arith, got, fresh, C.claim_answer key s up)

  -- Another caller holds the message, or its retries are used up: the guard says that it was
  -- handled, with no result.
  pub aenter-lost :
      (s : S.State)
      → C.Up s
      → is_done (C.view s key) ≡ false
      → claimable (C.rules s) (C.now s) (C.view s key) ≡ false
      → aenter S (new_guard key) s
        ≡ (ok (record (new_guard key) { already_processed = true }), (S.claim key s).1)
  unfolding aenter new_guard
  aenter-lost s up open_still taken =
      let (r, got, same) = C.status_answer key s up in
      let fresh = completed_record-not_done r _ same open_still in
      ground (arith, got, fresh, C.claim_answer key s up)

  -- What the body may do to the store: anything that leaves this message and the rules alone.
  pub record Leaves (s t : S.State) : Type 0 where
    pub up : C.Up t
    pub rules : C.rules t ≡ C.rules s
    pub view : C.view t key ≡ C.view s key

  -- The view under a claim that was won.
  pub view-won :
      (s : S.State)
      → C.Up s
      → claimable (C.rules s) (C.now s) (C.view s key) ≡ true
      → (a : ℕ) × (l : Option ℕ) × (C.view (S.claim key s).1 key ≡ some (running a l))
  unfolding spec_claim
  view-won s up free = (
    attempts_so_far (C.view s key) + 1,
    some (C.now s + (C.rules s).lease),
    ground (arith, C.claim_view key key s up),
  )

  -- A completion by the caller that holds the claim.
  pub view-completed :
      (v : Value) (s t : S.State)
      → C.Up s
      → claimable (C.rules s) (C.now s) (C.view s key) ≡ true
      → Leaves (S.claim key s).1 t
      → C.Storable v
      → C.view (S.mark_completed key v t).1 key ≡ some (done v)
  unfolding spec_complete
  view-completed v s t up free quiet can =
      let (a, l, won) = view-won s up free in
      ground (arith, C.complete_view key key v t quiet.up can, quiet.view, won)

  -- A use of the guard that wins its claim, where the backend still answers after the body.
  module _ (body : Guard → Exec S.State Value) (s t : S.State) (up : C.Up s) (up' : C.Up t)
      (free : claimable (C.rules s) (C.now s) (C.view s key) ≡ true) where
    pub with_guard-returned :
        (v : Value)
        → C.Storable v
        → body (new_guard key) (S.claim key s).1 ≡ (ok v, t)
        → with_guard S key body s ≡ (ok tt, (S.mark_completed key v t).1)
    unfolding with_guard aexit new_guard
    with_guard-returned v can run =
        ground (arith, aenter-claimed s up free, run, C.complete_answer key v t up' can)

    pub with_guard-raised :
        (e : Exn)
        → body (new_guard key) (S.claim key s).1 ≡ (raised e, t)
        → with_guard S key body s ≡ (raised e, (S.mark_failed key (error_msg S e) 1 t).1)
    unfolding with_guard aexit new_guard
    with_guard-raised e run =
        ground (arith, aenter-claimed s up free, run, C.fail_answer key (error_msg S e) 1 t up')

  -- A guard that says that the message was processed writes nothing when its body is left.
  pub with_guard-passes :
      (body : Guard → Exec S.State Value) (g : Guard) (s t : S.State)
      → aenter S (new_guard key) s ≡ (ok g, t)
      → g.already_processed ≡ true
      → (with_guard S key body s).1 ≡ (body g t).1
  unfolding with_guard aexit
  with_guard-passes body g s t entered skips = ground arith
