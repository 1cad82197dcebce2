-- ===== src/Dedup/Redis/Refines.antt =====
-- The methods of the Redis store while the server answers, and the contract of a store.
use message_deduplication_id.Prelude.{
  true, string_discrete, ℕ, ◌<◌, String, ◌≡◌, ◌≢◌, refl, ap, Option, none, some, arith, ◌==◌,
  Option-cases, inl, inr, ◌∙◌, if◌then◌else◌,
}
use message_deduplication_id.Prelude.Exec.{Exn, Result, ok, raised, Result-cases}
use message_deduplication_id.Dedup.{
  Value, null, StatusValue, ProcessingStatus, completed, failed, DeduplicationConfig,
}
use message_deduplication_id.Dedup.Lifecycle.{
  phase, claimable, spec_claim, spec_complete, spec_fail,
}
use message_deduplication_id.Dedup.Store.{Store, Contract}
use message_deduplication_id.Dedup.Redis.Protocol.{fine, Server, Writes, IsLawful}
use message_deduplication_id.Dedup.Redis.{
  redis_key, now_ms, claim, is_duplicate, mark_completed, mark_failed, get_status, delete, close,
  to_status, is_none,
}
use message_deduplication_id.Dedup.Redis.Laws.{
  view, rules, now, IsClean, Spells, run_claim, run_update, run_claim-claimable, view-run_claim,
  view-run_complete, view-run_fail,
}
use message_deduplication_id.Dedup.Redis.Clean.{
  run_claim_cases, run_update_cases, run_claim-IsClean, run_complete-IsClean, run_fail-IsClean,
}

module _ (R : Server) (L : IsLawful R) (config : DeduplicationConfig) where
  -- The server answers, records live for a while, and none holds a result too early.
  pub record Up (s : R.State) : Type 0 where
    pub answers : R.fault s ≡ fine
    pub ttl : 0 < config.ttl_seconds
    pub clean : IsClean R L config s

  abbrev pub text_of : Value → Result String
  text_of v = if is_none v then ok "" else R.dumps v

  -- `json.dumps` accepts the result, or there is none, and both codecs keep it.
  abbrev pub Storable : Value → Type 0
  Storable v = (json : String) × (text_of v ≡ ok json) × (R.exact v ≡ true)

  pub Spells-text :
      (v : Value) (json : String)
      → R.exact v ≡ true
      → text_of v ≡ ok json
      → Spells R L config json v
  Spells-text null json x h = inl (ground arith, refl)
  Spells-text v json x h = inr (L.dumps-ne-empty v json h, L.decode_value-dumps v json x h)

  pub claim-run :
      (id : String) (s : R.State)
      → R.fault s ≡ fine
      → claim R config id s ≡ (ok (run_claim R L config id s).0, (run_claim R L config id s).1)
  unfolding claim
  claim-run id s h = ground arith

  pub mark_completed-run :
      (id json : String) (v : Value) (s : R.State)
      → R.fault s ≡ fine
      → text_of v ≡ ok json
      → mark_completed R config id v s
        ≡ (ok tt, (run_update R L config id completed json "" none s).1)
  unfolding mark_completed
  mark_completed-run id json v s h e = ground arith

  pub mark_failed-run :
      (id error : String) (n : ℕ) (s : R.State)
      → R.fault s ≡ fine
      → mark_failed R config id error n s
        ≡ (ok tt, (run_update R L config id failed "" error (some n) s).1)
  unfolding mark_failed
  mark_failed-run id error n s h = ground arith

  -- A result that cannot be written leaves the store as it was.
  pub mark_completed_unstorable :
      (id : String) (v : Value) (e : Exn) (s : R.State)
      → text_of v ≡ raised e
      → mark_completed R config id v s ≡ (raised e, s)
  unfolding mark_completed
  mark_completed_unstorable id v e s h = ground arith

  abbrev pub Keeps : R.State → R.State → Type 0
  Keeps s t = Up t × (rules R L config ≡ rules R L config) × (now R L config t ≡ now R L config s)

  pub Writes-Keeps : {s t : R.State} → Up s → Writes R s t → IsClean R L config t → Keeps s t
  unfolding now_ms
  Writes-Keeps u w c = (
    record { answers = w.fault ∙ u.answers; ttl = u.ttl; clean = c },
    refl,
    ground (arith, w.time),
  )

  Writes-refl : (s : R.State) → Writes R s s
  Writes-refl s = record { fault = refl; time = refl }

  run_claim-Keeps : (id : String) (s : R.State) → Up s → Keeps s (run_claim R L config id s).1
  run_claim-Keeps id s u =
      Writes-Keeps u
        (run_claim_cases R L config (Writes R s) id s (Writes-refl s) (λ _. L.set_px_writes _ _ _ s)
          (λ _ _ _. L.set_keepttl_writes _ _ s))
        (run_claim-IsClean R L config id s u.ttl u.clean)

  run_update-Writes :
      (id json error : String) (status : StatusValue) (n : Option ℕ) (s : R.State)
      → Writes R s (run_update R L config id status json error n s).1
  run_update-Writes id json error status n s =
      run_update_cases R L config (Writes R s) id status json error n s (Writes-refl s)
        (λ _ _ _. L.set_keepttl_writes _ _ s)

  pub claim-Keeps : (id : String) (s : R.State) → Up s → Keeps s (claim R config id s).1
  claim-Keeps id s u = rw (claim-run id s u.answers) (run_claim-Keeps id s u)

  pub complete-Keeps :
      (id : String) (v : Value) (s : R.State) → Up s → Keeps s (mark_completed R config id v s).1
  complete-Keeps id v s u = elim (Result-cases (text_of v)) [
    | inl (json, e) ↦ rw (mark_completed-run id json v s u.answers e) (
        Writes-Keeps u (run_update-Writes id json "" completed none s)
          (run_complete-IsClean R L config id json s u.clean))
    | inr (e, h) ↦
        rw (mark_completed_unstorable id v e s h) (Writes-Keeps u (Writes-refl s) u.clean)
  ]

  pub fail-Keeps :
      (id e : String) (n : ℕ) (s : R.State) → Up s → Keeps s (mark_failed R config id e n s).1
  fail-Keeps id e n s u = rw (mark_failed-run id e n s u.answers) (
      Writes-Keeps u (run_update-Writes id "" e failed (some n) s)
        (run_fail-IsClean R L config id e n s u.clean))

  -- `claim` answers by the claim rule, at the server's clock.
  pub claim-claimable :
      (id : String) (s : R.State)
      → Up s
      → (claim R config id s).0
        ≡ ok (claimable (rules R L config) (now R L config s) (view R L config s id))
  claim-claimable id s u =
      rw (claim-run id s u.answers) (ap ok (run_claim-claimable R L config id s))

  -- A claim moves the record of its message as the lifecycle says, at the server's clock, and leaves
  -- the record of every other message as it was, while the server answers.
  pub view-claim :
      (id j : String) (s : R.State)
      → Up s
      → view R L config (claim R config id s).1 j ≡ (
          if j == id
          then spec_claim (rules R L config) (now R L config s) (view R L config s id)
          else view R L config s j)
  view-claim id j s u = rw (claim-run id s u.answers) (view-run_claim R L config id j s u.ttl)

  pub view-mark_completed :
      (id j : String) (v : Value) (s : R.State)
      → Up s
      → Storable v
      → view R L config (mark_completed R config id v s).1 j
        ≡ (if j == id then spec_complete v (view R L config s id) else view R L config s j)
  view-mark_completed id j v s u (json, e, x) =
      rw (mark_completed-run id json v s u.answers e)
        (view-run_complete R L config id j json v s (u.clean id) (Spells-text v json x e))

  -- What a later read gives for the result that this text stands for.
  abbrev pub stored : String → Value
  stored json = if json == "" then null else R.decode_value json

  pub Spells-stored : (json : String) → Spells R L config json (stored json)
  Spells-stored json = elim (string_discrete json "") [
    | yes e ↦ inl (e, ground arith)
    | no ne ↦ inr (ne, ground arith)
  ]

  pub view-mark_failed :
      (id j e : String) (n : ℕ) (s : R.State)
      → Up s
      → view R L config (mark_failed R config id e n s).1 j
        ≡ (if j == id then spec_fail n (view R L config s id) else view R L config s j)
  view-mark_failed id j e n s u =
      rw (mark_failed-run id e n s u.answers) (view-run_fail R L config id j e n s)

  pub status_answer :
      (id : String) (s : R.State)
      → Up s
      → (r : Option ProcessingStatus) × (get_status R config id s ≡ (ok r, s))
        × (phase r ≡ view R L config s id)
  unfolding get_status
  status_answer id s u = elim (Option-cases (R.get (redis_key id) s)) [
    | inl e ↦ (none, ground arith, ground arith)
    | inr (raw, e) ↦
        (some (to_status R config (R.loads raw)), ground arith, ground (arith, L.loads-decode raw))
  ]

  pub complete_other :
      (id j : String) (v : Value) (s : R.State)
      → id ≢ j
      → Up s
      → view R L config (mark_completed R config id v s).1 j ≡ view R L config s j
  complete_other id j v s ne u = elim (Result-cases (text_of v)) [
    | inl (json, e) ↦
        ap (λ x. view R L config x.1 j) (mark_completed-run id json v s u.answers e)
        ∙ ground (
          arith,
          view-run_complete R L config id j json (stored json) s (u.clean id) (Spells-stored json),
        )
    | inr (x, h) ↦ ap (λ z. view R L config z.1 j) (mark_completed_unstorable id v x s h)
  ]

  pub fail_other :
      (id j e : String) (n : ℕ) (s : R.State)
      → id ≢ j
      → Up s
      → view R L config (mark_failed R config id e n s).1 j ≡ view R L config s j
  fail_other id j e n s ne u = ground (arith, view-mark_failed id j e n s u)

  abbrev pub redis : Store
  redis = record {
    State = R.State;
    claim = claim R config;
    is_duplicate = is_duplicate R config;
    mark_completed = mark_completed R config;
    mark_failed = mark_failed R config;
    get_status = get_status R config;
    delete = delete R config;
    close = close R config;
  }

  -- Over a lawful server the Redis store keeps the contract of a store while the server answers.
  unfoldable pub redis-Contract : Contract redis
  redis-Contract = record {
    view = view R L config;
    rules = λ _. rules R L config;
    now = now R L config;
    Up = Up;
    Storable = Storable;
    claim_answer = claim-claimable;
    claim_view = view-claim;
    claim_keeps = claim-Keeps;
    complete_answer =
        λ id v s u (json, e, x). ap (λ r. r.0) (mark_completed-run id json v s u.answers e);
    complete_view = view-mark_completed;
    complete_keeps = complete-Keeps;
    fail_answer = λ id e n s u. ap (λ r. r.0) (mark_failed-run id e n s u.answers);
    fail_view = λ id j e n k l s u _. view-mark_failed id j e n s u;
    fail_keeps = fail-Keeps;
    complete_other = complete_other;
    fail_other = fail_other;
    status_answer = status_answer;
  }
