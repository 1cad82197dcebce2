-- ===== src/Dedup/Redis/Outcomes.antt =====
-- What a call of the Redis store leaves on the server, whether it is answered, does not get there, or
-- runs there and is not answered.
use mathlib.Core.Path.{subst}
use message_deduplication_id.Prelude.{
  ℕ, ◌<◌, String, ◌≡◌, refl, sym, ap, ◌⊎◌, none, some, inl, inr, arith,
}
use message_deduplication_id.Prelude.Exec.{ok, Result-cases}
use message_deduplication_id.Dedup.{Value, completed, failed, DeduplicationConfig}
use message_deduplication_id.Dedup.Redis.Protocol.{
  Fault, fine, unsent, unanswered, Server, IsLawful,
}
use message_deduplication_id.Dedup.Redis.{claim, mark_completed, mark_failed}
use message_deduplication_id.Dedup.Redis.Laws.{IsClean, run_claim, run_update}
use message_deduplication_id.Dedup.Redis.Clean.{
  run_claim-IsClean, run_complete-IsClean, run_fail-IsClean,
}
use message_deduplication_id.Dedup.Redis.Refines.{Up, text_of, mark_completed_unstorable}

module _ (R : Server) (L : IsLawful R) (config : DeduplicationConfig) where
  -- Records live for a while, and none holds a result too early.
  pub record Sound (s : R.State) : Type 0 where
    pub ttl : 0 < config.ttl_seconds
    pub clean : IsClean R L config s

  pub Up-Sound : (s : R.State) → Up R L config s → Sound s
  Up-Sound s u = record { ttl = u.ttl; clean = u.clean }

  -- A claim leaves the server as it was, or as its script leaves it.
  claim_at :
      (id : String) (s : R.State) (x : Fault)
      → R.fault s ≡ x
      → ((claim R config id s).1 ≡ s) ⊎ ((claim R config id s).1 ≡ (run_claim R L config id s).1)
  unfolding claim
  claim_at id s fine e = inr (ground arith)
  claim_at id s (unsent x) e = inl (ground arith)
  claim_at id s (unanswered x) e = inr (ground arith)

  complete_at :
      (id json : String) (v : Value) (s : R.State) (x : Fault)
      → R.fault s ≡ x
      → text_of R L config v ≡ ok json
      → ((mark_completed R config id v s).1 ≡ s)
        ⊎ ((mark_completed R config id v s).1
            ≡ (run_update R L config id completed json "" none s).1)
  unfolding mark_completed
  complete_at id json v s fine e h = inr (ground arith)
  complete_at id json v s (unsent x) e h = inl (ground arith)
  complete_at id json v s (unanswered x) e h = inr (ground arith)

  fail_at :
      (id error : String) (n : ℕ) (s : R.State) (x : Fault)
      → R.fault s ≡ x
      → ((mark_failed R config id error n s).1 ≡ s)
        ⊎ ((mark_failed R config id error n s).1
            ≡ (run_update R L config id failed "" error (some n) s).1)
  unfolding mark_failed
  fail_at id error n s fine e = inr (ground arith)
  fail_at id error n s (unsent x) e = inl (ground arith)
  fail_at id error n s (unanswered x) e = inr (ground arith)

  either {ℓ} : (P : R.State → Type ℓ) (s t u : R.State) → (t ≡ s) ⊎ (t ≡ u) → P s → P u → P t
  either P s t u (inl e) same ran = subst P (sym e) same
  either P s t u (inr e) same ran = subst P (sym e) ran

  pub claim_leaves {ℓ} :
      (P : R.State → Type ℓ) (id : String) (s : R.State)
      → P s
      → P (run_claim R L config id s).1
      → P (claim R config id s).1
  claim_leaves P id s same ran = either P s _ _ (claim_at id s (R.fault s) refl) same ran

  pub complete_leaves {ℓ} :
      (P : R.State → Type ℓ) (id : String) (v : Value) (s : R.State)
      → P s
      → ((json : String) → P (run_update R L config id completed json "" none s).1)
      → P (mark_completed R config id v s).1
  complete_leaves P id v s same ran = elim (Result-cases (text_of R L config v)) [
    | inl (json, h) ↦ either P s _ _ (complete_at id json v s (R.fault s) refl h) same (ran json)
    | inr (x, h) ↦
        subst P (sym (ap (λ z. z.1) (mark_completed_unstorable R L config id v x s h))) same
  ]

  pub fail_leaves {ℓ} :
      (P : R.State → Type ℓ) (id error : String) (n : ℕ) (s : R.State)
      → P s
      → P (run_update R L config id failed "" error (some n) s).1
      → P (mark_failed R config id error n s).1
  fail_leaves P id error n s same ran =
      either P s _ _ (fail_at id error n s (R.fault s) refl) same ran

  pub claim-Sound : (id : String) (s : R.State) → Sound s → Sound (claim R config id s).1
  claim-Sound id s u =
      claim_leaves Sound id s u
        (record { ttl = u.ttl; clean = run_claim-IsClean R L config id s u.ttl u.clean })

  pub complete-Sound :
      (id : String) (v : Value) (s : R.State) → Sound s → Sound (mark_completed R config id v s).1
  complete-Sound id v s u =
      complete_leaves Sound id v s u
        λ json. record { ttl = u.ttl; clean = run_complete-IsClean R L config id json s u.clean }

  pub fail-Sound :
      (id error : String) (n : ℕ) (s : R.State)
      → Sound s
      → Sound (mark_failed R config id error n s).1
  fail-Sound id error n s u =
      fail_leaves Sound id error n s u
        (record { ttl = u.ttl; clean = run_fail-IsClean R L config id error n s u.clean })
