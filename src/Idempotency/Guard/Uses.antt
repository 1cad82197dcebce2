-- ===== src/Idempotency/Guard/Uses.antt =====
-- Uses of the guard by one of the callers of Dedup/Workers, and the moves that it makes.
use message_deduplication_id.Prelude.{
  ℕ, ◌+◌, String, ◌<◌, ◌≡◌, ◌⊎◌, refl, ap, sym, ◌∙◌, inl, inr, true, false, none, some, arith,
  Bool-cases,
}
use message_deduplication_id.Prelude.Exec.{Exn, Exec, ok, raised, Result-cases, outcome}
use message_deduplication_id.Dedup.{Value}
use message_deduplication_id.Dedup.Lifecycle.{done, claimable}
use message_deduplication_id.Dedup.Store.{Store, Contract}
use message_deduplication_id.Dedup.Workers.{
  set, set_self, Situation, lease_end, wins, loses, completes, fails, Reach, moves,
}
use message_deduplication_id.Dedup.Workers.Exclusion.{Reach-Held, Reach-rules}
use message_deduplication_id.Idempotency.Guard.{Guard, new_guard, error_msg, aenter, with_guard}
use message_deduplication_id.Idempotency.Guard.Laws.{
  is_done, is_done-value, aenter-done, aenter-lost, with_guard-returned, with_guard-raised,
  with_guard-passes,
}

module _ (S : Store) (C : Contract S) (key : String) (i : ℕ) (begin : S.State) (up : C.Up begin)
    (body : Guard → Exec S.State Value) where
  -- `c` is a situation that the callers can bring about.
  abbrev pub Reached : Situation S C key → Type 0
  Reached c = Reach S C key begin c

  -- While the body runs, the callers move, by what it does or in its waits. Entered under a lease that
  -- runs, it ends while it still runs, and returns what can be stored.
  pub record Behaves : Type 0 where
    pub works :
        (c : Situation S C key) (u : ℕ)
        → Reached c
        → c.working i ≡ some u
        → C.now c.store < u
        → (d : Situation S C key) × Reached d
          × (d.store ≡ (body (new_guard key) c.store).1)
          × (d.working i ≡ some u)
          × (C.now d.store < u)
    pub storable : (s : S.State) (v : Value) → (body (new_guard key) s).0 ≡ ok v → C.Storable v
    pub passes :
        (c : Situation S C key) (g : Guard)
        → Reached c
        → g.already_processed ≡ true
        → (d : Situation S C key) × Reached d × (d.store ≡ (body g c.store).1)

  -- What a use of the guard from `c` was, with the situations that it went through.
  pub data Used (c : Situation S C key) : Type 0 where
    -- The message cannot be claimed. The guard says so, and the block does what its body does.
    skips :
        (g : Guard) (entered d : Situation S C key)
        → claimable (C.rules c.store) (C.now c.store) (C.view c.store key) ≡ false
        → aenter S (new_guard key) c.store ≡ (ok g, entered.store)
        → g.already_processed ≡ true
        → (entered.store ≡ c.store) ⊎ (entered.store ≡ (S.claim key c.store).1)
        → Reached entered
        → entered.working ≡ c.working
        → (with_guard S key body c.store).1 ≡ (body g entered.store).1
        → (body g entered.store).1 ≡ d.store
        → Reached d
        → Used c
    -- The claim is won, the body returns, and its value is stored.
    returns :
        (d : Situation S C key) (v : Value)
        → claimable (C.rules c.store) (C.now c.store) (C.view c.store key) ≡ true
        → Reached (record c {
          store = (S.claim key c.store).1;
          working = set c.working i (some (lease_end S C key c.store));
        })
        → body (new_guard key) (S.claim key c.store).1 ≡ (ok v, d.store)
        → Reached d
        → d.working i ≡ some (lease_end S C key c.store)
        → C.now d.store < lease_end S C key c.store
        → with_guard S key body c.store ≡ (ok tt, (S.mark_completed key v d.store).1)
        → Reached (record d {
          store = (S.mark_completed key v d.store).1;
          working = set d.working i none;
          completions = d.completions + 1;
        })
        → Used c
    -- The claim is won, the body raises, and the failure is stored.
    raises :
        (d : Situation S C key) (x : Exn)
        → claimable (C.rules c.store) (C.now c.store) (C.view c.store key) ≡ true
        → Reached (record c {
          store = (S.claim key c.store).1;
          working = set c.working i (some (lease_end S C key c.store));
        })
        → body (new_guard key) (S.claim key c.store).1 ≡ (raised x, d.store)
        → Reached d
        → d.working i ≡ some (lease_end S C key c.store)
        → C.now d.store < lease_end S C key c.store
        → with_guard S key body c.store
          ≡ (raised x, (S.mark_failed key (error_msg S x) 1 d.store).1)
        → Reached (record d {
          store = (S.mark_failed key (error_msg S x) 1 d.store).1;
          working = set d.working i none;
        })
        → Used c

  won-Used :
      (c : Situation S C key)
      → Behaves
      → Reached c
      → c.working i ≡ none
      → 0 < (C.rules begin).lease
      → claimable (C.rules c.store) (C.now c.store) (C.view c.store key) ≡ true
      → Used c
  won-Used c b r idle long free =
      let s = c.store in
      let s-Up = (Reach-Held S C key up r).up in
      let u = lease_end S C key s in
      let r1 = moves r (wins i idle (C.claim_answer key s s-Up ∙ ap ok free)) in
      let (s1-Up, same_rules, same_now) = C.claim_keeps key s s-Up in
      let same = ap (λ x. x.lease) (Reach-rules S C key up r) in
      let fresh : C.now (S.claim key s).1 < u = omega arith in
      let (d, rd, kept, w, l) = b.works _ u r1 (set_self c.working i (some u)) fresh in
      let d-Up = (Reach-Held S C key up rd).up in
      let ran = body (new_guard key) (S.claim key s).1 in
      elim (Result-cases ran.0) [
        | inl (v, e) ↦
            let can = b.storable _ v e in
            let went = outcome ran (ok v) d.store e kept in
            returns d v free r1 went rd w l
              (with_guard-returned S C key body s d.store s-Up d-Up free v can went)
              (moves rd (completes i u v w l can))
        | inr (x, e) ↦
            let went = outcome ran (raised x) d.store e kept in
            raises d x free r1 went rd w l
              (with_guard-raised S C key body s d.store s-Up d-Up free x went)
              (moves rd (fails i u (error_msg S x) 1 w l))
      ]

  lost-Used :
      (c : Situation S C key)
      → Behaves
      → Reached c
      → is_done (C.view c.store key) ≡ false
      → claimable (C.rules c.store) (C.now c.store) (C.view c.store key) ≡ false
      → Used c
  lost-Used c b r open_still taken =
      let s = c.store in
      let s-Up = (Reach-Held S C key up r).up in
      let r1 = moves r (loses (C.claim_answer key s s-Up ∙ ap ok taken)) in
      let g = record (new_guard key) { already_processed = true } in
      let entered = aenter-lost S C key s s-Up open_still taken in
      let (d, rd, same) = b.passes _ g r1 refl in
      skips g _ d taken entered refl (inr refl) r1 refl
        (with_guard-passes S C key body g s _ entered refl) (sym same) rd

  done-Used :
      (c : Situation S C key) (v : Value)
      → Behaves
      → Reached c
      → C.view c.store key ≡ some (done v)
      → Used c
  unfolding claimable
  done-Used c v b r e =
      let entered = aenter-done S C key v c.store (Reach-Held S C key up r).up e in
      let (d, rd, same) = b.passes c _ r refl in
      skips _ c d (rw e refl) entered refl (inl refl) r refl
        (with_guard-passes S C key body _ c.store _ entered refl) (sym same) rd

  -- A use of the guard, in a situation that callers of the store can bring about. Where the message
  -- cannot be claimed, the guard is told so, and all that the use does to the store is a claim that
  -- is refused, if it makes one, and what its body does. Otherwise the use wins a claim, which is a
  -- move of this caller; the body runs on the claimed record, and at its end this caller still
  -- works on it under the lease of that claim, which is not over; then the value that the body
  -- returned is stored as a completion, or its exception as a failure with one attempt, and that is
  -- a move of this caller too. In each case the use leaves a situation that the callers can bring
  -- about. A lease has some length; while the body runs, the store changes by moves of callers
  -- only; and a body under a claim ends while its lease runs, with a result that can be stored.
  pub with_guard-Used :
      (c : Situation S C key)
      → Behaves
      → Reached c
      → c.working i ≡ none
      → 0 < (C.rules begin).lease
      → Used c
  with_guard-Used c b r idle long = elim (Bool-cases (is_done (C.view c.store key))) [
    | inl finished ↦ let (v, e) = is_done-value (C.view c.store key) finished in done-Used c v b r e
    | inr open_still ↦
        elim (Bool-cases (claimable (C.rules c.store) (C.now c.store) (C.view c.store key))) [
          | inl free ↦ won-Used c b r idle long free
          | inr taken ↦ lost-Used c b r open_still taken
        ]
  ]
