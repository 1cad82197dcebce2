-- ===== src/Dedup/Redis/Facts.antt =====
-- What the scripts and methods of the Redis store do to the records, without their dates and ids.
use mathlib.Core.Option
use message_deduplication_id.Prelude.{
  ℕ, ◌+◌, ◌*◌, ◌<◌, String, ◌≡◌, ◌≢◌, refl, true, Option, none, some, ◌==◌, arith, if◌then◌else◌,
  Option-cases, inl, inr,
}
use message_deduplication_id.Prelude.Exec.{ok}
use message_deduplication_id.Dedup.{Value, ProcessingStatus, completed, failed, DeduplicationConfig}
use message_deduplication_id.Dedup.Lifecycle.{claimable}
use message_deduplication_id.Dedup.Redis.Protocol.{Server, LuaRecord, IsLawful, exact_result}
use message_deduplication_id.Dedup.Redis.{
  redis_key, lua_claim, lua_update_status, get_status, to_status, first_record, re_claimed,
  update_record,
}
use message_deduplication_id.Dedup.Redis.Laws.{
  view, rules, now, until, redis_key-==, IsCleanRaw, Spells, run_claim, run_update,
  first_record-exact, re_claimed-exact, update_record-exact,
}
use message_deduplication_id.Dedup.Redis.Refines.{Up}
use message_deduplication_id.Dedup.Lockstep.{Facts, facts_of, claimed, finished, abandoned}

module _ (R : Server) (L : IsLawful R) (config : DeduplicationConfig) where
  abbrev pub facts_of_raw : Option R.Raw → Option Facts
  facts_of_raw none = none
  facts_of_raw (some raw) = facts_of (some (to_status R config (R.decode raw)))

  pub facts_of_raw-map :
      (x : Option R.Raw)
      → facts_of_raw x ≡ facts_of (Option.map (λ raw. to_status R config (R.decode raw)) x)
  facts_of_raw-map none = refl
  facts_of_raw-map (some raw) = refl

  abbrev pub facts : R.State → String → Option Facts
  facts s k = facts_of_raw (R.get (redis_key k) s)

  facts-set_px :
      (id j : String) (r : LuaRecord) (ttl : ℕ) (s : R.State)
      → 0 < ttl
      → exact_result R r.result ≡ true
      → facts (R.set_px (redis_key id) (R.encode r) ttl s) j
        ≡ (if j == id then facts_of (some (to_status R config r)) else facts s j)
  facts-set_px id j r ttl s h x =
      rw (L.get-set_px, redis_key-==) (ground (arith, L.decode-encode r x))

  facts-set_keepttl :
      (id j : String) (r : LuaRecord) (s : R.State)
      → exact_result R r.result ≡ true
      → facts (R.set_keepttl (redis_key id) (R.encode r) s) j
        ≡ (if j == id then facts_of (some (to_status R config r)) else facts s j)
  facts-set_keepttl id j r s x =
      rw (L.get-set_keepttl, redis_key-==) (ground (arith, L.decode-encode r x))

  -- The claim script, on a server whose records hold no result too early.
  pub facts-run_claim :
      (id j : String) (s : R.State)
      → 0 < config.ttl_seconds
      → IsCleanRaw R L config (R.get (redis_key id) s)
      → facts (run_claim R L config id s).1 j ≡ (
          if j == id
          then claimed
              (claimable (rules R L config) (now R L config s) (view R L config s id))
              (now R L config s + (rules R L config).lease)
              (facts s id)
          else facts s j)
  unfolding lua_claim claimable
  facts-run_claim id j s h clean = elim (Option-cases (R.get (redis_key id) s)) [
    | inl e ↦ ground (
      arith,
      facts-set_px id j (first_record R config id (R.client_clock s) (until R L config s))
          (config.ttl_seconds * 1000) s (omega arith)
          (first_record-exact R L config id (R.client_clock s) (until R L config s)),
    )
    | inr (raw, e) ↦ ground (
      arith,
      facts-set_keepttl id j
          (re_claimed R config (R.client_clock s) (until R L config s) (R.decode raw)) s
          (re_claimed-exact R L config (R.client_clock s) (until R L config s) raw),
    )
  ]

  pub facts-run_complete :
      (id j json : String) (v : Value) (s : R.State)
      → IsCleanRaw R L config (R.get (redis_key id) s)
      → Spells R L config json v
      → facts (run_update R L config id completed json "" none s).1 j
        ≡ (if j == id then finished v (facts s id) else facts s j)
  unfolding lua_update_status
  facts-run_complete id j json v s clean spells = elim (Option-cases (R.get (redis_key id) s)) [
    | inl e ↦ ground arith
    | inr (raw, e) ↦ ground (
      arith,
      facts-set_keepttl id j
          (update_record R config completed (R.client_clock s) json "" none (R.decode raw)) s
          (update_record-exact R L config completed (R.client_clock s) json "" none raw),
    )
  ]

  pub facts-run_fail :
      (id j error : String) (n : ℕ) (s : R.State)
      → error ≢ ""
      → facts (run_update R L config id failed "" error (some n) s).1 j
        ≡ (if j == id then abandoned error n (facts s id) else facts s j)
  unfolding lua_update_status
  facts-run_fail id j error n s some_text = elim (Option-cases (R.get (redis_key id) s)) [
    | inl e ↦ ground arith
    | inr (raw, e) ↦ ground (
      arith,
      facts-set_keepttl id j
          (update_record R config failed (R.client_clock s) "" error (some n) (R.decode raw)) s
          (update_record-exact R L config failed (R.client_clock s) "" error (some n) raw),
    )
  ]

  pub facts-del :
      (id j : String) (s : R.State)
      → facts (R.del (redis_key id) s) j ≡ (if j == id then none else facts s j)
  facts-del id j s = rw (L.get-del, redis_key-==) (ground arith)

  pub facts-get_status :
      (id : String) (s : R.State)
      → Up R L config s
      → (r : Option ProcessingStatus) × (get_status R config id s ≡ (ok r, s))
        × (facts_of r ≡ facts s id)
  unfolding get_status
  facts-get_status id s u = elim (Option-cases (R.get (redis_key id) s)) [
    | inl e ↦ (none, ground (arith, u.answers), ground arith)
    | inr (raw, e) ↦ (
      some (to_status R config (R.loads raw)),
      ground (arith, u.answers),
      ground (arith, L.loads-decode raw),
    )
  ]
