-- ===== src/Dedup/Races/Winner.antt =====
-- Who wins a race of claims, over any store that keeps its contract.
use message_deduplication_id.Prelude.{
  ℕ, ◌+◌, ◌≤◌, ◌<◌, String, ◌≡◌, refl, ◌∙◌, ◌⊎◌, inl, inr, true, false, some, arith, Bool-cases,
  string_discrete,
}
use mathlib.Core.Path.{subst}
use native.Mathlib.Nat.{add_assoc}
use message_deduplication_id.Prelude.Exec.{ok}
use message_deduplication_id.Dedup.Lifecycle.{running, claimable, attempts_so_far}
use message_deduplication_id.Dedup.Store.{Store, Contract}
use message_deduplication_id.Dedup.Races.{
  win, spec_claim_wins, spec_claim_loses, leased_not_claimable, win_elsewhere, win_here, Race,
  start, claims, waits,
}

module _ (S : Store) (C : Contract S) where
  -- What one win leaves behind: the lease of the winner.
  record Won (id : String) (s t : S.State) : Type 0 where
    attempts : ℕ
    until : ℕ
    leased : C.view t id ≡ some (running attempts (some until))
    long : C.now s + (C.rules s).lease ≤ until

  record Held (id : String) (s : S.State) (n : ℕ) (t : S.State) : Type 0 where
    up : C.Up t
    rules : C.rules t ≡ C.rules s
    later : C.now s ≤ C.now t
    held : (n ≡ 0) ⊎ ((n ≡ 1) × Won id s t)

  Won-same : {id : String} {s t u : S.State} → C.view u id ≡ C.view t id → Won id s t → Won id s u
  Won-same e w = record {
    attempts = w.attempts;
    until = w.until;
    leased = e ∙ w.leased;
    long = w.long;
  }

  claim-lost :
      (id : String) (t : S.State)
      → C.Up t
      → claimable (C.rules t) (C.now t) (C.view t id) ≡ false
      → (win id id (S.claim id t).0 ≡ 0) × (C.view (S.claim id t).1 id ≡ C.view t id)
  claim-lost id t up free = (
    rw (C.claim_answer id t up, free) (win_here id false),
    ground
        (arith, C.claim_view id id t up, spec_claim_loses (C.rules t) (C.now t) (C.view t id) free),
  )

  claim-won :
      (id : String) (s t : S.State)
      → C.Up t
      → C.rules t ≡ C.rules s
      → C.now s ≤ C.now t
      → claimable (C.rules t) (C.now t) (C.view t id) ≡ true
      → (win id id (S.claim id t).0 ≡ 1) × Won id s (S.claim id t).1
  claim-won id s t up same later free = (
    rw (C.claim_answer id t up, free) (win_here id true),
    record {
      attempts = attempts_so_far (C.view t id) + 1;
      until = C.now t + (C.rules t).lease;
      leased = ground (
        arith,
        C.claim_view id id t up,
        spec_claim_wins (C.rules t) (C.now t) (C.view t id) free,
      );
      long = ground arith;
    },
  )

  -- A winner whose lease still runs keeps everybody out.
  Won-not_claimable :
      {id : String} {s t : S.State}
      → C.now t < C.now s + (C.rules s).lease
      → Won id s t
      → claimable (C.rules t) (C.now t) (C.view t id) ≡ false
  Won-not_claimable {t = t} early w = ground (
    arith,
    w.leased,
    leased_not_claimable (C.rules t) (C.now t) w.attempts w.until (omega (arith, w.long)),
  )

  abbrev Tally : String → S.State → ℕ → S.State → Type 0
  Tally id s n t = (n ≡ 0) ⊎ ((n ≡ 1) × Won id s t)

  claim-Tally :
      (id : String) (s t : S.State) {n : ℕ}
      → Held id s n t
      → C.now t < C.now s + (C.rules s).lease
      → Tally id s (n + win id id (S.claim id t).0) (S.claim id t).1
  claim-Tally id s t h early = elim (Bool-cases (claimable (C.rules t) (C.now t) (C.view t id))) [
    | inl free ↦
        let (one, won) = claim-won id s t h.up h.rules h.later free in
        elim h.held [
          | inl e ↦ inr (omega arith, won)
          | inr (e, w) ↦ absurd (ground (arith, Won-not_claimable early w))
        ]
    | inr taken ↦
        let (zero_wins, same) = claim-lost id t h.up taken in
        elim h.held [ inl e ↦ inl (omega arith) | inr (e, w) ↦ inr (omega arith, Won-same same w) ]
  ]

  claims-Tally :
      (id k : String) (s t : S.State) {n : ℕ}
      → Held id s n t
      → C.now t < C.now s + (C.rules s).lease
      → Tally id s (n + win id k (S.claim k t).0) (S.claim k t).1
  claims-Tally id k s t {n} h early = elim (string_discrete id k) [
    | yes e ↦
        subst (λ j. Tally id s (n + win id j (S.claim j t).0) (S.claim j t).1) e
          (claim-Tally id s t h early)
    | no ne ↦
        let none_won = win_elsewhere id k (S.claim k t).0 ne in
        let same : C.view (S.claim k t).1 id ≡ C.view t id =
          ground (arith, C.claim_view k id t h.up) in
        elim h.held [ inl e ↦ inl (omega arith) | inr (e, w) ↦ inr (omega arith, Won-same same w) ]
  ]

  Race-Up : (id : String) {s : S.State} {n : ℕ} {t : S.State} → Race S C id s n t → C.Up s → C.Up t
  Race-Up id start up = up
  Race-Up id (claims {t = t} k r) up = (C.claim_keeps k t (Race-Up id r up)).0
  Race-Up id (waits r w) up = w.up

  Race-Held :
      (id : String) {s : S.State} {n : ℕ} {t : S.State}
      → Race S C id s n t
      → C.Up s
      → C.now t < C.now s + (C.rules s).lease
      → Held id s n t
  Race-Held id start up early = record {
    up = up;
    rules = refl;
    later = omega arith;
    held = inl refl;
  }
  Race-Held id {s} (claims {t = t} k r) up early =
      let (up', rules', now') = C.claim_keeps k t (Race-Up id r up) in
      let h = Race-Held id r up (omega arith) in
      record {
        up = up';
        rules = rules' ∙ h.rules;
        later = omega (arith, h.later);
        held = claims-Tally id k s t h (omega arith);
      }
  Race-Held id {s} (waits r w) up early =
      let h = Race-Held id r up (omega (arith, w.later)) in
      record {
        up = w.up;
        rules = w.rules ∙ h.rules;
        later = omega (arith, w.later, h.later);
        held = elim h.held [ inl e ↦ inl e | inr (e, won) ↦ inr (e, Won-same (w.views id) won) ];
      }

  -- However many callers claim a message, in whatever order and with whatever waits in between, at
  -- most one of them wins until the lease that starts with the race is over.
  pub Race-winner :
      (id : String) {s : S.State} {n : ℕ} {t : S.State}
      → Race S C id s n t
      → C.Up s
      → C.now t < C.now s + (C.rules s).lease
      → n ≤ 1
  Race-winner id r up early = omega (arith, (Race-Held id r up early).held)

  Race-append :
      (id : String) {s t u : S.State} {n m : ℕ}
      → Race S C id s n t
      → Race S C id t m u
      → Race S C id s (n + m) u
  Race-append id {s} {t} {n = n} r start = subst (λ k. Race S C id s k t) (omega arith) r
  Race-append id {s} {n = n} r (claims {n = m} {t = v} k q) =
      subst (λ w. Race S C id s w (S.claim k v).1) (add_assoc n m (win id k (S.claim k v).0))
        (claims k (Race-append id r q))
  Race-append id r (waits q w) = waits (Race-append id r q) w

  -- Where a message can be claimed, the first caller wins it, and no later call of the race wins it
  -- again before that caller's lease is over.
  pub Race-first :
      (id : String) {s : S.State} {n : ℕ} {t : S.State}
      → C.Up s
      → claimable (C.rules s) (C.now s) (C.view s id) ≡ true
      → Race S C id (S.claim id s).1 n t
      → C.now t < C.now s + (C.rules s).lease
      → ((S.claim id s).0 ≡ ok true) × (n ≡ 0)
  Race-first id {s} {n} up free r early =
      let won = claim-won id s s up refl (omega arith) free in
      (
        rw (C.claim_answer id s up, free) refl,
        omega (arith, won.0, Race-winner id (Race-append id (claims id start) r) up early),
      )
