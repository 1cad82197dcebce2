-- ===== src/Dedup/Redis/Calls.antt =====
-- Any sequence of calls to the Redis store, by any number of clients, over connections that may fail:
-- each script runs atomically on the server, so the order of the scripts is the whole of their
-- concurrency.
use message_deduplication_id.Prelude.{
  ℕ, ◌≤◌, String, ◌≡◌, refl, ap, ◌∙◌, Option, some, arith, ◌==◌, string_discrete, if◌then◌else◌,
}
use mathlib.Core.Path.{subst}
use message_deduplication_id.Prelude.{sym}
use message_deduplication_id.Dedup.{Value, DeduplicationConfig}
use message_deduplication_id.Dedup.Lifecycle.{Phase, done, Step, stay}
use message_deduplication_id.Dedup.Lifecycle.Safety.{
  spec_claim-Step, spec_complete-Step, spec_fail-Step, Step-done, Step-along,
}
use message_deduplication_id.Dedup.Redis.Protocol.{Server, IsLawful}
use message_deduplication_id.Dedup.Redis.{redis_key, now_ms, claim, mark_completed, mark_failed}
use message_deduplication_id.Dedup.Redis.Laws.{
  view, rules, now, IsCleanRaw, view-run_claim, view-run_complete, view-run_fail,
}
use message_deduplication_id.Dedup.Redis.Refines.{stored, Spells-stored}
use message_deduplication_id.Dedup.Redis.Outcomes.{
  Sound, claim_leaves, complete_leaves, fail_leaves, claim-Sound, complete-Sound, fail-Sound,
}

pub data Call : Type 0 where
  claims : String → Call
  completes : String → Value → Call
  fails : String → String → ℕ → Call

module _ (R : Server) (L : IsLawful R) (config : DeduplicationConfig) where
  -- The state after a call, whether it returned or raised.
  abbrev pub after : R.State → Call → R.State
  after s (claims id) = (claim R config id s).1
  after s (completes id v) = (mark_completed R config id v s).1
  after s (fails id e n) = (mark_failed R config id e n s).1

  -- Time passes in which no record expires; connections may break or come back.
  pub record Drift (s t : R.State) : Type 0 where
    pub keys : (key : String) → R.get key t ≡ R.get key s
    pub deadlines : (key : String) → R.deadline key t ≡ R.deadline key s
    pub later : now_ms R config s ≤ now_ms R config t

  -- Calls and waits lead from `s`.
  pub data Run (s : R.State) : R.State → Type 0 where
    start : Run s s
    calls : {t : R.State} → Run s t → (c : Call) → Run s (after t c)
    drifts : {t u : R.State} → Run s t → Drift t u → Run s u

  abbrev Moves : R.State → String → R.State → Type 0
  Moves s id t =
      Step (rules R L config) (now R L config s) (view R L config s id) (view R L config t id)

  own_or_other :
      (id j : String) (s t : R.State) (p : Option Phase)
      → view R L config t j ≡ (if j == id then p else view R L config s j)
      → Step (rules R L config) (now R L config s) (view R L config s id) p
      → Moves s j t
  own_or_other id j s t p e st = elim (string_discrete j id) [
    | yes same ↦ Step-along (ap (view R L config s) same) (ground arith) st
    | no ne ↦ Step-along refl (ground arith) stay
  ]

  pub Drift-view :
      (id : String) (s t : R.State) → Drift s t → view R L config t id ≡ view R L config s id
  Drift-view id s t d = ground (arith, d.keys (redis_key id))

  pub Drift-Sound : (s t : R.State) → Sound R L config s → Drift s t → Sound R L config t
  Drift-Sound s t u d = record {
    ttl = u.ttl;
    clean = λ id. subst (IsCleanRaw R L config) (sym (d.keys (redis_key id))) (u.clean id);
  }

  after-Sound : (s : R.State) (c : Call) → Sound R L config s → Sound R L config (after s c)
  after-Sound s (claims id) u = claim-Sound R L config id s u
  after-Sound s (completes id v) u = complete-Sound R L config id v s u
  after-Sound s (fails id e n) u = fail-Sound R L config id e n s u

  pub Run-Sound : {s t : R.State} → Sound R L config s → Run s t → Sound R L config t
  Run-Sound u start = u
  Run-Sound u (calls {t = t} r c) = after-Sound t c (Run-Sound u r)
  Run-Sound u (drifts {t = t} {u = w} r d) = Drift-Sound t w (Run-Sound u r) d

  pub after-Step :
      (s : R.State) (c : Call) (j : String) → Sound R L config s → Moves s j (after s c)
  after-Step s (claims id) j u =
      claim_leaves R L config (Moves s j) id s stay
        (own_or_other id j s _ _ (view-run_claim R L config id j s u.ttl) (spec_claim-Step _ _ _))
  after-Step s (completes id v) j u = complete_leaves R L config (Moves s j) id v s stay λ json.
      own_or_other id j s _ _
        (view-run_complete R L config id j json (stored R L config json) s (u.clean id)
          (Spells-stored R L config json))
        (spec_complete-Step _ _ (stored R L config json) _)
  after-Step s (fails id e n) j u =
      fail_leaves R L config (Moves s j) id e n s stay
        (own_or_other id j s _ _ (view-run_fail R L config id j e n s) (spec_fail-Step _ _ n _))

  -- A COMPLETED record of the Redis store keeps its status and its result through any sequence of
  -- claims, completions and failures of any messages, by any clients, whether these are answered or
  -- not, and through any waits in which no record expires.
  pub run-done :
      {s t : R.State} (j : String) (v : Value)
      → Sound R L config s
      → Run s t
      → view R L config s j ≡ some (done v)
      → view R L config t j ≡ some (done v)
  run-done j v u start h = h
  run-done j v u (calls {t = t} r c) h =
      Step-done v (after-Step t c j (Run-Sound u r)) (run-done j v u r h)
  run-done j v u (drifts {t = t} {u = w} r d) h = Drift-view j t w d ∙ run-done j v u r h
