-- ===== src/Dedup/Redis/Expiry.antt =====
-- The Redis store once the time to live of a record is over.
use mathlib.Core.Path.{subst}
use message_deduplication_id.Prelude.{
  ℕ, ◌+◌, ◌*◌, ◌≤◌, String, ◌≡◌, sym, ◌⊎◌, inl, inr, true, none, some, arith,
}
use message_deduplication_id.Prelude.Exec.{ok}
use message_deduplication_id.Dedup.{Value, DeduplicationConfig}
use message_deduplication_id.Dedup.Lifecycle.{running, claimable, spec_claim}
use message_deduplication_id.Dedup.Redis.Protocol.{fine, Server, IsLawful}
use message_deduplication_id.Dedup.Redis.{
  redis_key, now_ms, claim, mark_completed, lua_update_status,
}
use message_deduplication_id.Dedup.Redis.Laws.{view, rules, now, IsCleanRaw}
use message_deduplication_id.Dedup.Redis.Refines.{
  Up, Storable, claim-claimable, view-claim, mark_completed-run,
}
use message_deduplication_id.Dedup.Redis.Calls.{Run, Run-Sound}
use message_deduplication_id.Dedup.Redis.Outcomes.{Sound, Up-Sound, claim-Sound}
use message_deduplication_id.Dedup.Redis.Deadlines.{run_first_claim}

module _ (R : Server) (L : IsLawful R) (config : DeduplicationConfig) where
  -- Time passes on the server: a key is gone once its deadline is reached, and no key changes.
  pub record Passes (s t : R.State) : Type 0 where
    pub answers : R.fault t ≡ fine
    pub gone :
        (key : String) (d : ℕ)
        → R.deadline key s ≡ some d
        → d ≤ now_ms R config t
        → R.get key t ≡ none
    pub kept : (key : String) → (R.get key t ≡ none) ⊎ (R.get key t ≡ R.get key s)

  first-Sound :
      (id : String) (s : R.State) → Up R L config s → Sound R L config (claim R config id s).1
  first-Sound id s u = claim-Sound R L config id s (Up-Sound R L config s u)

  Passes-Up : (s t : R.State) → Sound R L config s → Passes s t → Up R L config t
  Passes-Up s t u p = record {
    answers = p.answers;
    ttl = u.ttl;
    clean = λ id. elim (p.kept (redis_key id)) [
      | inl e ↦ subst (IsCleanRaw R L config) (sym e) tt
      | inr e ↦ subst (IsCleanRaw R L config) (sym e) (u.clean id)
    ];
  }

  -- A message that was first claimed at a time of the server's clock, whatever any clients did with
  -- it since, over connections that may fail: once the time to live has passed from that claim, a
  -- claim wins it as a new message, and a completion that comes late, with a result that can be
  -- kept, returns and stores nothing.
  pub claim-expired :
      (id : String) (v : Value) (s w t : R.State)
      → Up R L config s
      → R.get (redis_key id) s ≡ none
      → Run R L config (claim R config id s).1 w
      → Passes w t
      → now_ms R config s + config.ttl_seconds * 1000 ≤ now_ms R config t
      → Storable R L config v
      → ((claim R config id t).0 ≡ ok true)
        × (view R L config (claim R config id t).1 id
            ≡ some (running 1 (some (now R L config t + (rules R L config).lease))))
        × (mark_completed R config id v t ≡ (ok tt, t))
  unfolding claimable spec_claim lua_update_status
  claim-expired id v s w t u free r p late (json, e, x) =
      let u' = Passes-Up w t (Run-Sound R L config (first-Sound id s u) r) p in
      let none_left = p.gone (redis_key id) _ (run_first_claim R L config id s w u free r) late in
      let a = claim-claimable R L config id t u' in
      let b = view-claim R L config id id t u' in
      let c = mark_completed-run R L config id json v t u'.answers e in
      (ground arith, ground arith, ground arith)
