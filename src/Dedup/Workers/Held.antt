-- ===== src/Dedup/Workers/Held.antt =====
-- What holds of the callers of a message at all times, and the calls that keep it at once.
use message_deduplication_id.Prelude.{
  ℕ, ◌+◌, ◌≤◌, ◌<◌, String, ◌≡◌, ◌≢◌, ap, ◌∙◌, ◌⊎◌, inl, inr, true, false, Option, some, eqb, arith,
  Bool-cases,
}
use message_deduplication_id.Prelude.Exec.{ok}
use message_deduplication_id.Dedup.{Value}
use message_deduplication_id.Dedup.Lifecycle.{running, done, claimable, attempts_so_far}
use message_deduplication_id.Dedup.Store.{Store, Contract}
use message_deduplication_id.Dedup.Races.{spec_claim_wins, spec_claim_loses, leased_not_claimable}
use message_deduplication_id.Dedup.Workers.{set, Situation, lease_end}

pub set-cases :
    (f : ℕ → Option ℕ) (i j u : ℕ) (x : Option ℕ)
    → set f i x j ≡ some u
    → ((j ≡ i) × (x ≡ some u)) ⊎ ((j ≢ i) × (f j ≡ some u))
set-cases f i j u x h = elim (Bool-cases (eqb j i)) [
  | inl e ↦ inl (ground arith, ground arith)
  | inr e ↦ inr ((λ p. ground arith), ground arith)
]

module _ (S : Store) (C : Contract S) (id : String) where
  pub record Held (c : Situation S C id) : Type 0 where
    pub up : C.Up c.store
    pub leased :
        (i u : ℕ)
        → c.working i ≡ some u
        → C.now c.store < u
        → (n : ℕ) × (C.view c.store id ≡ some (running n (some u)))
    pub alone :
        (i j u v : ℕ)
        → c.working i ≡ some u
        → c.working j ≡ some v
        → C.now c.store < u
        → C.now c.store < v
        → i ≡ j
    pub once :
        (c.completions ≡ 0)
        ⊎ ((c.completions ≡ 1) × (v : Value) × (C.view c.store id ≡ some (done v)))

  -- A caller whose lease runs keeps the others from claiming, and so does a completion.
  pub leased-false :
      (s : S.State) (n u : ℕ)
      → C.Up s
      → C.view s id ≡ some (running n (some u))
      → C.now s < u
      → (S.claim id s).0 ≡ ok false
  leased-false s n u up e l =
      C.claim_answer id s up
      ∙ ap ok (ground (arith, e, leased_not_claimable (C.rules s) (C.now s) n u l))

  pub done-false :
      (s : S.State) (v : Value) → C.Up s → C.view s id ≡ some (done v) → (S.claim id s).0 ≡ ok false
  unfolding claimable
  done-false s v up e = C.claim_answer id s up ∙ ap ok (ground arith)

  pub won-view :
      (s : S.State)
      → C.Up s
      → (S.claim id s).0 ≡ ok true
      → (n : ℕ) × (C.view (S.claim id s).1 id ≡ some (running n (some (lease_end S C id s))))
  won-view s up won =
      let free : claimable (C.rules s) (C.now s) (C.view s id) ≡ true =
        let a = C.claim_answer id s up in cc in
      (
        attempts_so_far (C.view s id) + 1,
        ground (
          arith,
          C.claim_view id id s up,
          spec_claim_wins (C.rules s) (C.now s) (C.view s id) free,
        ),
      )

  pub lost-view :
      (s : S.State)
      → C.Up s
      → (S.claim id s).0 ≡ ok false
      → C.view (S.claim id s).1 id ≡ C.view s id
  lost-view s up lost =
      let free : claimable (C.rules s) (C.now s) (C.view s id) ≡ false =
        let a = C.claim_answer id s up in cc in
      ground
        (arith, C.claim_view id id s up, spec_claim_loses (C.rules s) (C.now s) (C.view s id) free)

  -- Nobody's work and no completion changes when the view of the message and the time do not.
  pub same-Held :
      (c : Situation S C id) (t : S.State)
      → Held c
      → C.Up t
      → C.view t id ≡ C.view c.store id
      → C.now c.store ≤ C.now t
      → Held (record c { store = t })
  same-Held c t h up same later = record {
    up = up;
    leased = λ i u w l. let (n, e) = h.leased i u w (omega arith) in (n, same ∙ e);
    alone = λ i j u v w w' l l'. h.alone i j u v w w' (omega arith) (omega arith);
    once = elim h.once [ inl z ↦ inl z | inr (one, v, e) ↦ inr (one, v, same ∙ e) ];
  }
