-- ===== src/Dedup/Workers/Exclusion.antt =====
-- One caller at a time, and one completion.
use message_deduplication_id.Prelude.{
  ℕ, ◌+◌, ◌≤◌, ◌<◌, String, ◌≡◌, refl, ap, sym, ◌∙◌, ◌⊎◌, inl, inr, true, none, some, arith,
}
use message_deduplication_id.Prelude.Exec.{ok}
use message_deduplication_id.Dedup.{Value}
use message_deduplication_id.Dedup.Lifecycle.{running, done, spec_complete}
use message_deduplication_id.Dedup.Store.{Store, Contract}
use message_deduplication_id.Dedup.Workers.{
  set, Situation, lease_end, Move, wins, loses, completes, fails, crashes, others, Reach, begins,
  moves,
}
use message_deduplication_id.Dedup.Workers.Held.{
  set-cases, Held, leased-false, done-false, won-view, lost-view, same-Held,
}

module _ (S : Store) (C : Contract S) (id : String) where
  -- Nobody's lease runs.
  IsQuiet : Situation S C id → Type 0
  IsQuiet c = (i u : ℕ) → c.working i ≡ some u → C.now c.store < u → ⊥

  quiet-Held :
      (c : Situation S C id)
      → C.Up c.store
      → IsQuiet c
      → (c.completions ≡ 0)
        ⊎ ((c.completions ≡ 1) × (v : Value) × (C.view c.store id ≡ some (done v)))
      → Held S C id c
  unfolding IsQuiet
  quiet-Held c up quiet once = record {
    up = up;
    leased = λ i u w l. absurd (quiet i u w l);
    alone = λ i j u v w w' l l'. absurd (quiet i u w l);
    once = once;
  }

  -- When the caller whose lease runs leaves, nobody's lease runs.
  left-IsQuiet :
      (c : Situation S C id) (t : S.State) (i u m : ℕ)
      → Held S C id c
      → c.working i ≡ some u
      → C.now c.store < u
      → C.now t ≡ C.now c.store
      → IsQuiet (record c { store = t; working = set c.working i none; completions = m })
  unfolding IsQuiet
  left-IsQuiet c t i u m h w l same j v w' l' = elim (set-cases c.working i j v none w') [
    | inl (e, x) ↦ absurd (cc)
    | inr (ne, x) ↦ ne (sym (h.alone i j u v w x l (omega arith)))
  ]

  wins-Held :
      (c : Situation S C id) (i : ℕ)
      → Held S C id c
      → (S.claim id c.store).0 ≡ ok true
      → Held S C id (record c {
        store = (S.claim id c.store).1;
        working = set c.working i (some (lease_end S C id c.store));
      })
  wins-Held c i h won =
      let s = c.store in
      let (n, e) = won-view S C id s h.up won in
      let (up, same_rules, same_now) = C.claim_keeps id s h.up in
      let others : (j u : ℕ) → c.working j ≡ some u → C.now s < u → ⊥ = λ j u w l.
        let (m, held) = h.leased j u w l in
        let lost = leased-false S C id s m u h.up held l in absurd (cc) in
      record {
        up = up;
        leased = λ j u w l. elim (set-cases c.working i j u (some (lease_end S C id s)) w) [
          | inl (p, x) ↦ (n, e ∙ ap (λ z. some (running n z)) x)
          | inr (ne, x) ↦ absurd (others j u x (omega arith))
        ];
        alone = λ j k u v w w' l l'.
            elim (set-cases c.working i j u (some (lease_end S C id s)) w) [
              | inr (ne, x) ↦ absurd (others j u x (omega arith))
              | inl (p, x) ↦ elim (set-cases c.working i k v (some (lease_end S C id s)) w') [
                | inl (q, y) ↦ p ∙ sym q
                | inr (ne, y) ↦ absurd (others k v y (omega arith))
              ]
            ];
        once = elim h.once [
          | inl z ↦ inl z
          | inr (one, v, d) ↦ let lost = done-false S C id s v h.up d in absurd (cc)
        ];
      }

  completed-Held :
      (c : Situation S C id) (i u : ℕ) (v : Value)
      → Held S C id c
      → c.working i ≡ some u
      → C.now c.store < u
      → C.Storable v
      → Held S C id (record c {
        store = (S.mark_completed id v c.store).1;
        working = set c.working i none;
        completions = c.completions + 1;
      })
  unfolding spec_complete
  completed-Held c i u v h w l can =
      let s = c.store in
      let (n, held) = h.leased i u w l in
      let (up, same_rules, same_now) = C.complete_keeps id v s h.up in
      quiet-Held _ up
        (left-IsQuiet c (S.mark_completed id v s).1 i u (c.completions + 1) h w l same_now)
        (elim h.once [
          | inl z ↦ inr (omega arith, v, ground (arith, C.complete_view id id v s h.up can))
          | inr (one, x, d) ↦ absurd (cc)
        ])

  failed-Held :
      (c : Situation S C id) (i u n : ℕ) (e : String)
      → Held S C id c
      → c.working i ≡ some u
      → C.now c.store < u
      → Held S C id
          (record c { store = (S.mark_failed id e n c.store).1; working = set c.working i none })
  failed-Held c i u n e h w l =
      let s = c.store in
      let (m, held) = h.leased i u w l in
      let (up, same_rules, same_now) = C.fail_keeps id e n s h.up in
      quiet-Held _ up (left-IsQuiet c (S.mark_failed id e n s).1 i u c.completions h w l same_now)
        (elim h.once [ inl z ↦ inl z | inr (one, x, d) ↦ absurd (cc) ])

  crashed-Held :
      (c : Situation S C id) (i : ℕ)
      → Held S C id c
      → Held S C id (record c { working = set c.working i none })
  crashed-Held c i h =
      let kept : (j u : ℕ) → set c.working i none j ≡ some u → c.working j ≡ some u = λ j u w.
        elim (set-cases c.working i j u none w) [ inl (e, x) ↦ absurd (cc) | inr (ne, x) ↦ x ] in
      record {
        up = h.up;
        leased = λ j u w l. h.leased j u (kept j u w) l;
        alone = λ j k u v w w' l l'. h.alone j k u v (kept j u w) (kept k v w') l l';
        once = h.once;
      }

  Move-Held : {c d : Situation S C id} → Held S C id c → Move S C id c d → Held S C id d
  Move-Held {c = c} h (wins i free won) = wins-Held c i h won
  Move-Held {c = c} h (loses lost) =
      let (up, same_rules, same_now) = C.claim_keeps id c.store h.up in
      same-Held S C id c (S.claim id c.store).1 h up (lost-view S C id c.store h.up lost)
        (omega arith)
  Move-Held {c = c} h (completes i u v w l can) = completed-Held c i u v h w l can
  Move-Held {c = c} h (fails i u e n w l) = failed-Held c i u n e h w l
  Move-Held {c = c} h (crashes i) = crashed-Held c i h
  Move-Held {c = c} h (others t q) = same-Held S C id c t h q.up q.view q.later

  pub Reach-Held : {s : S.State} {c : Situation S C id} → C.Up s → Reach S C id s c → Held S C id c
  unfolding IsQuiet
  Reach-Held up begins = quiet-Held _ up (λ i u w l. absurd (cc)) (inl refl)
  Reach-Held up (moves r m) = Move-Held (Reach-Held up r) m

  Move-rules :
      {c d : Situation S C id} → C.Up c.store → Move S C id c d → C.rules d.store ≡ C.rules c.store
  Move-rules {c = c} up (wins i idle won) = (C.claim_keeps id c.store up).1
  Move-rules {c = c} up (loses lost) = (C.claim_keeps id c.store up).1
  Move-rules {c = c} up (completes i u v w l can) = (C.complete_keeps id v c.store up).1
  Move-rules {c = c} up (fails i u e n w l) = (C.fail_keeps id e n c.store up).1
  Move-rules up (crashes i) = refl
  Move-rules up (others t q) = q.rules

  pub Reach-rules :
      {s : S.State} {c : Situation S C id} → C.Up s → Reach S C id s c → C.rules c.store ≡ C.rules s
  Reach-rules up begins = refl
  Reach-rules up (moves r m) = Move-rules (Reach-Held up r).up m ∙ Reach-rules up r

  -- Callers that claim a message, work on it, and mark its record before their lease is over, or
  -- crash, in any order, with any calls for other messages and any waits in which the record of the
  -- message does not expire: no two of them work on the message while the leases of both run. It
  -- holds for every store that keeps its contract.
  pub Reach-alone :
      {s : S.State} {c : Situation S C id} (i j u v : ℕ)
      → C.Up s
      → Reach S C id s c
      → c.working i ≡ some u
      → c.working j ≡ some v
      → C.now c.store < u
      → C.now c.store < v
      → i ≡ j
  Reach-alone i j u v up r w w' l l' = (Reach-Held up r).alone i j u v w w' l l'

  -- Callers that claim a message, work on it, and mark its record before their lease is over, or
  -- crash, in any order, with any calls for other messages and any waits in which the record of the
  -- message does not expire, complete it at most once. It holds for every store that keeps its
  -- contract.
  pub Reach-once :
      {s : S.State} {c : Situation S C id} → C.Up s → Reach S C id s c → c.completions ≤ 1
  Reach-once up r = elim (Reach-Held up r).once [
    | inl z ↦ omega arith
    | inr (one, v, d) ↦ omega arith
  ]
