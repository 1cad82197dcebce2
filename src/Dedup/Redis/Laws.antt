-- ===== src/Dedup/Redis/Laws.antt =====
-- The scripts of the Redis store against the lifecycle: what each does to the views of its keys.
-- Times are in microseconds, as in the in-memory store.
use text.Mathlib.TextLemmas.{append_cancel_left}
use message_deduplication_id.Prelude.{
  refl, ℕ, ◌+◌, ◌*◌, ◌<◌, String, true, ◌≡◌, ◌≢◌, ◌⊎◌, ap, Bool, false, Option, none, some, arith,
  ◌==◌, Option-cases, string_discrete, inl, inr, if◌then◌else◌,
}
use message_deduplication_id.Dedup.{
  Value, StatusValue, null, is_completed, failed, completed, DeduplicationConfig,
}
use message_deduplication_id.Dedup.Lifecycle.{
  Phase, phase, Rules, claimable, spec_claim, spec_complete, spec_fail,
}
use message_deduplication_id.Dedup.Redis.Protocol.{Server, LuaRecord, IsLawful, exact_result}
use message_deduplication_id.Dedup.Redis.{
  Reply, redis_key, now_ms, lua_claim, lua_update_status, to_status, first_record, re_claimed,
  update_record,
}

-- Keys of different messages differ.
redis_key-injective : (j k : String) → redis_key j ≡ redis_key k → j ≡ k
unfolding redis_key
redis_key-injective j k = append_cancel_left "dedup:" j k

pub redis_key-== : (j k : String) → (redis_key j == redis_key k) ≡ (j == k)
redis_key-== j k = elim (string_discrete j k) [
  | yes e ↦ ground (arith, ap redis_key e)
  | no ne ↦ ground (arith, redis_key-injective j k)
]

module _ (R : Server) (L : IsLawful R) (config : DeduplicationConfig) where
  abbrev pub seen : Option R.Raw → Option Phase
  seen none = none
  seen (some raw) = phase (some (to_status R config (R.decode raw)))

  abbrev pub view : R.State → String → Option Phase
  view s id = seen (R.get (redis_key id) s)

  abbrev pub rules : Rules
  rules = record {
    max_retries = config.max_retries;
    retry_failed = config.retry_failed;
    lease = config.processing_timeout_seconds * 1_000_000;
  }

  abbrev pub now : R.State → ℕ
  now s = now_ms R config s * 1000

  abbrev pub run_claim : String → R.State → Bool × R.State
  run_claim id s =
      lua_claim R config (redis_key id) id (config.ttl_seconds * 1000)
        (config.processing_timeout_seconds * 1000) config.max_retries config.retry_failed
        (R.client_clock s) s

  pub run_claim-claimable :
      (id : String) (s : R.State) → (run_claim id s).0 ≡ claimable rules (now s) (view s id)
  unfolding lua_claim claimable
  run_claim-claimable id s = ground arith

  view-set_px :
      (id j : String) (r : LuaRecord) (ttl : ℕ) (s : R.State)
      → 0 < ttl
      → exact_result R r.result ≡ true
      → view (R.set_px (redis_key id) (R.encode r) ttl s) j
        ≡ (if j == id then phase (some (to_status R config r)) else view s j)
  view-set_px id j r ttl s h x =
      rw (L.get-set_px, redis_key-==) (ground (arith, L.decode-encode r x))

  view-set_keepttl :
      (id j : String) (r : LuaRecord) (s : R.State)
      → exact_result R r.result ≡ true
      → view (R.set_keepttl (redis_key id) (R.encode r) s) j
        ≡ (if j == id then phase (some (to_status R config r)) else view s j)
  view-set_keepttl id j r s x =
      rw (L.get-set_keepttl, redis_key-==) (ground (arith, L.decode-encode r x))

  -- What the scripts write is kept by the codecs.
  pub first_record-exact :
      (id : String) (now_iso lease : ℕ)
      → exact_result R (first_record R config id now_iso lease).result ≡ true
  unfolding first_record
  first_record-exact id now_iso lease = refl

  pub re_claimed-exact :
      (now_iso lease : ℕ) (raw : R.Raw)
      → exact_result R (re_claimed R config now_iso lease (R.decode raw)).result ≡ true
  unfolding re_claimed
  re_claimed-exact now_iso lease raw = L.decode-exact raw

  pub update_record-exact :
      (status : StatusValue) (now_iso : ℕ) (json error : String) (n : Option ℕ) (raw : R.Raw)
      → exact_result R (update_record R config status now_iso json error n (R.decode raw)).result
        ≡ true
  unfolding update_record
  update_record-exact status now_iso json error n raw =
      ground (arith, L.decode-exact raw, L.decode_value-exact json)

  abbrev pub until : R.State → ℕ
  until s = now_ms R config s + config.processing_timeout_seconds * 1000

  pub view-run_claim :
      (id j : String) (s : R.State)
      → 0 < config.ttl_seconds
      → view (run_claim id s).1 j
        ≡ (if j == id then spec_claim rules (now s) (view s id) else view s j)
  unfolding lua_claim spec_claim
  view-run_claim id j s h = elim (Option-cases (R.get (redis_key id) s)) [
    | inl e ↦ ground (
      arith,
      view-set_px id j (first_record R config id (R.client_clock s) (until s))
          (config.ttl_seconds * 1000) s (omega arith)
          (first_record-exact id (R.client_clock s) (until s)),
    )
    | inr (raw, e) ↦ ground (
      arith,
      view-set_keepttl id j (re_claimed R config (R.client_clock s) (until s) (R.decode raw)) s
          (re_claimed-exact (R.client_clock s) (until s) raw),
    )
  ]

  -- What a value of a key holds, where there is one, has the property.
  abbrev pub Each : (LuaRecord → Type 0) → Option R.Raw → Type 0
  Each Q none = Unit
  Each Q (some raw) = Q (R.decode raw)

  -- A record that is not COMPLETED holds no result.
  abbrev pub HoldsNoResult : LuaRecord → Type 0
  HoldsNoResult r = is_completed r.status ≡ false → r.result ≡ none

  abbrev pub IsCleanRaw : Option R.Raw → Type 0
  IsCleanRaw = Each HoldsNoResult

  abbrev pub IsClean : R.State → Type 0
  IsClean s = (id : String) → IsCleanRaw (R.get (redis_key id) s)

  -- The text that stands for a result in the script.
  abbrev pub Spells : String → Value → Type 0
  Spells json v = ((json ≡ "") × (v ≡ null)) ⊎ ((json ≢ "") × (R.decode_value json ≡ v))

  abbrev pub run_update :
      String → StatusValue → String → String → Option ℕ → R.State → Reply × R.State
  run_update id status json error n s =
      lua_update_status R config (redis_key id) status (R.client_clock s) json error n s

  pub view-run_complete :
      (id j json : String) (v : Value) (s : R.State)
      → IsCleanRaw (R.get (redis_key id) s)
      → Spells json v
      → view (run_update id completed json "" none s).1 j
        ≡ (if j == id then spec_complete v (view s id) else view s j)
  unfolding lua_update_status spec_complete
  view-run_complete id j json v s clean spells = elim (Option-cases (R.get (redis_key id) s)) [
    | inl e ↦ ground arith
    | inr (raw, e) ↦ ground (
      arith,
      view-set_keepttl id j
          (update_record R config completed (R.client_clock s) json "" none (R.decode raw)) s
          (update_record-exact completed (R.client_clock s) json "" none raw),
    )
  ]

  pub view-run_fail :
      (id j error : String) (n : ℕ) (s : R.State)
      → view (run_update id failed "" error (some n) s).1 j
        ≡ (if j == id then spec_fail n (view s id) else view s j)
  unfolding lua_update_status spec_fail
  view-run_fail id j error n s = elim (Option-cases (R.get (redis_key id) s)) [
    | inl e ↦ ground arith
    | inr (raw, e) ↦ ground (
      arith,
      view-set_keepttl id j
          (update_record R config failed (R.client_clock s) "" error (some n) (R.decode raw)) s
          (update_record-exact failed (R.client_clock s) "" error (some n) raw),
    )
  ]
