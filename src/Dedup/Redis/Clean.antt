-- ===== src/Dedup/Redis/Clean.antt =====
-- The results that the scripts leave in records that are not COMPLETED.
use mathlib.Core.Path.{subst}
use message_deduplication_id.Prelude.{
  ℕ, ◌*◌, ◌<◌, String, ◌≡◌, refl, true, false, Option, none, some, arith, ◌==◌, Option-cases, Bool,
  Bool-cases, ◌||◌, string_discrete, inl, inr, string_discrete, if◌then◌else◌,
}
use message_deduplication_id.Dedup.{
  StatusValue, completed, failed, is_completed, is_processing, DeduplicationConfig,
}
use message_deduplication_id.Dedup.Redis.Protocol.{Server, LuaRecord, IsLawful, exact_result}
use message_deduplication_id.Dedup.Redis.{
  redis_key, now_ms, script_retryable, script_orphaned, lua_claim, lua_update_status, first_record,
  re_claimed, update_record,
}
use message_deduplication_id.Dedup.Redis.Laws.{
  redis_key-==, Each, HoldsNoResult, IsClean, run_claim, run_update, until, update_record-exact,
}

module _ (R : Server) (L : IsLawful R) (config : DeduplicationConfig) where
  -- Each record on the server has the property.
  abbrev pub Every : (LuaRecord → Type 0) → R.State → Type 0
  Every Q s = (id : String) → Each R L config Q (R.get (redis_key id) s)

  written-Each :
      (Q : LuaRecord → Type 0) (id j : String) (r : LuaRecord) (old : Option R.Raw)
      → exact_result R r.result ≡ true
      → Q r
      → Each R L config Q old
      → Each R L config Q (if j == id then some (R.encode r) else old)
  written-Each Q id j r old x q h = elim (string_discrete j id) [
    | yes e ↦
        let here : Each R L config Q (some (R.encode r)) = rw (L.decode-encode r x) q in
        ground arith
    | no ne ↦ ground arith
  ]

  pub set_px-Every :
      (Q : LuaRecord → Type 0) (id : String) (r : LuaRecord) (ttl : ℕ) (s : R.State)
      → 0 < ttl
      → exact_result R r.result ≡ true
      → Q r
      → Every Q s
      → Every Q (R.set_px (redis_key id) (R.encode r) ttl s)
  set_px-Every Q id r ttl s pos x q every j =
      rw (L.get-set_px, redis_key-==) (written-Each Q id j r _ x q (every j))

  pub set_keepttl-Every :
      (Q : LuaRecord → Type 0) (id : String) (r : LuaRecord) (s : R.State)
      → exact_result R r.result ≡ true
      → Q r
      → Every Q s
      → Every Q (R.set_keepttl (redis_key id) (R.encode r) s)
  set_keepttl-Every Q id r s x q every j =
      rw (L.get-set_keepttl, redis_key-==) (written-Each Q id j r _ x q (every j))

  -- the test of _LUA_CLAIM on an old record
  abbrev reclaims : R.Raw → R.State → Bool
  reclaims raw s =
      script_retryable R config config.max_retries config.retry_failed (R.decode raw)
      || script_orphaned R config (now_ms R config s) (R.decode raw)

  reclaims-open :
      (raw : R.Raw) (s : R.State)
      → reclaims raw s ≡ true
      → is_completed (R.decode raw).status ≡ false
  reclaims-open raw s won = ground arith

  -- What a script does to the server: nothing, or one of its writes.
  pub run_claim_cases {ℓ} :
      (P : R.State → Type ℓ) (id : String) (s : R.State)
      → P s
      → (R.get (redis_key id) s ≡ none
          → P (
              R.set_px
                (redis_key id)
                (R.encode (first_record R config id (R.client_clock s) (until R L config s)))
                (config.ttl_seconds * 1000)
                s))
      → ((raw : R.Raw)
          → R.get (redis_key id) s ≡ some raw
          → is_completed (R.decode raw).status ≡ false
          → P (
              R.set_keepttl
                (redis_key id)
                (R.encode
                  (re_claimed R config (R.client_clock s) (until R L config s) (R.decode raw)))
                s))
      → P (run_claim R L config id s).1
  unfolding lua_claim
  run_claim_cases P id s same new old = elim (Option-cases (R.get (redis_key id) s)) [
    | inl e ↦ rw (e, lua_claim) (new e)
    | inr (raw, e) ↦ elim (Bool-cases (reclaims raw s)) [
      | inl won ↦ rw (e, lua_claim, won) (old raw e (reclaims-open raw s won))
      | inr lost ↦ rw (e, lua_claim, lost) same
    ]
  ]

  pub run_update_cases {ℓ} :
      (P : R.State → Type ℓ) (id : String) (status : StatusValue) (json error : String)
      (n : Option ℕ) (s : R.State)
      → P s
      → ((raw : R.Raw)
          → R.get (redis_key id) s ≡ some raw
          → is_processing (R.decode raw).status ≡ true
          → P (
              R.set_keepttl
                (redis_key id)
                (R.encode
                  (update_record R config status (R.client_clock s) json error n (R.decode raw)))
                s))
      → P (run_update R L config id status json error n s).1
  unfolding lua_update_status
  run_update_cases P id status json error n s same old =
      elim (Option-cases (R.get (redis_key id) s)) [
        | inl e ↦ rw (e, lua_update_status) same
        | inr (raw, e) ↦ elim (Bool-cases (is_processing (R.decode raw).status)) [
          | inl running ↦ rw (e, lua_update_status, running) (old raw e running)
          | inr other ↦ rw (e, lua_update_status, other) same
        ]
      ]

  -- The scripts keep a property of the records that their writes have.
  pub run_claim-Every :
      (Q : LuaRecord → Type 0) (id : String) (s : R.State)
      → 0 < config.ttl_seconds
      → ((now until : ℕ) → Q (first_record R config id now until))
      → ((now until : ℕ) (r : LuaRecord)
          → is_completed r.status ≡ false
          → Q r
          → Q (re_claimed R config now until r))
      → Every Q s
      → Every Q (run_claim R L config id s).1
  unfolding first_record re_claimed
  run_claim-Every Q id s pos new old every =
      run_claim_cases (Every Q) id s every
        (λ e. set_px-Every Q id _ _ s (omega arith) refl (new _ _) every)
        λ raw e open_still.
          set_keepttl-Every Q id _ s (L.decode-exact raw)
            (old _ _ _ open_still (subst (Each R L config Q) e (every id))) every

  pub run_update-Every :
      (Q : LuaRecord → Type 0) (id : String) (status : StatusValue) (json error : String)
      (n : Option ℕ) (s : R.State)
      → ((now : ℕ) (r : LuaRecord)
          → is_processing r.status ≡ true
          → Q r
          → Q (update_record R config status now json error n r))
      → Every Q s
      → Every Q (run_update R L config id status json error n s).1
  run_update-Every Q id status json error n s old every =
      run_update_cases (Every Q) id status json error n s every λ raw e running.
        set_keepttl-Every Q id _ s
          (update_record-exact R L config status (R.client_clock s) json error n raw)
          (old _ _ running (subst (Each R L config Q) e (every id))) every

  pub run_claim-IsClean :
      (id : String) (s : R.State)
      → 0 < config.ttl_seconds
      → IsClean R L config s
      → IsClean R L config (run_claim R L config id s).1
  unfolding first_record re_claimed
  run_claim-IsClean id s pos clean =
      run_claim-Every (HoldsNoResult R L config) id s pos (λ now until _. refl)
        (λ now until r open_still c _. c open_still) clean

  pub run_complete-IsClean :
      (id json : String) (s : R.State)
      → IsClean R L config s
      → IsClean R L config (run_update R L config id completed json "" none s).1
  unfolding update_record
  run_complete-IsClean id json s clean =
      run_update-Every (HoldsNoResult R L config) id completed json "" none s
        (λ now r running c h. cc) clean

  pub run_fail-IsClean :
      (id error : String) (n : ℕ) (s : R.State)
      → IsClean R L config s
      → IsClean R L config (run_update R L config id failed "" error (some n) s).1
  unfolding update_record string_discrete
  run_fail-IsClean id error n s clean =
      run_update-Every (HoldsNoResult R L config) id failed "" error (some n) s
        (λ now r running c h. c (ground arith)) clean
