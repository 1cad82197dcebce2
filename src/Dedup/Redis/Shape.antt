-- ===== src/Dedup/Redis/Shape.antt =====
-- The shape of the records that the scripts _LUA_CLAIM and _LUA_UPDATE_STATUS write, as `get_status`
-- gives them to a client.
use mathlib.Core.Path.{subst}
use message_deduplication_id.Prelude.{
  ℕ, ◌<◌, String, ◌≡◌, refl, sym, true, false, Bool, Option, none, some, arith, Option-cases,
  Bool-cases, ◌||◌, not, inl, inr, string_discrete,
}
use message_deduplication_id.Prelude.Exec.{ok}
use message_deduplication_id.Dedup.{
  completed, failed, is_completed, is_processing, is_failed_value, is_skipped_value,
  ProcessingStatus, DeduplicationConfig,
}
use message_deduplication_id.Dedup.Redis.Protocol.{
  Fault, fine, unsent, unanswered, Server, LuaRecord, IsLawful,
}
use message_deduplication_id.Dedup.Redis.{
  redis_key, is_none, get_status, to_status, first_record, re_claimed, update_record,
}
use message_deduplication_id.Dedup.Redis.Laws.{Each, run_claim, run_update}
use message_deduplication_id.Dedup.Redis.Clean.{Every, run_claim-Every, run_update-Every}
use message_deduplication_id.Dedup.Redis.Outcomes.{
  Sound, claim_leaves, complete_leaves, fail_leaves,
}
use message_deduplication_id.Dedup.Redis.Calls.{
  Call, claims, completes, fails, after, Run, start, calls, drifts, Run-Sound,
}
use message_deduplication_id.Dedup.Redis.Readback.{get_status-Found}

abbrev has {ℓ} : {A : Type ℓ} → Option A → Bool
has none = false
has (some x) = true

-- A lease exactly while PROCESSING, a result only when COMPLETED, an error text only when FAILED, and
-- never SKIPPED.
pub record IsShaped (r : ProcessingStatus) : Type 0 where
  pub leased : has r.lease_expires_at ≡ is_processing r.status
  pub resultless : (is_completed r.status || is_none r.result) ≡ true
  pub errorless : (is_failed_value r.status || not (has r.error)) ≡ true
  pub not_skipped : is_skipped_value r.status ≡ false

module _ (R : Server) (config : DeduplicationConfig) where
  -- A read that returns was answered.
  got-fine :
      (id : String) (r : ProcessingStatus) (t : R.State) (x : Fault)
      → R.fault t ≡ x
      → (get_status R config id t).0 ≡ ok (some r)
      → R.fault t ≡ fine
  unfolding get_status
  got-fine id r t fine e h = e
  got-fine id r t (unsent y) e h = absurd (ground arith)
  got-fine id r t (unanswered y) e h = absurd (ground arith)

module _ (R : Server) (L : IsLawful R) (config : DeduplicationConfig) where
  -- The same of a record in a script.
  pub record Shaped (r : LuaRecord) : Type 0 where
    leased : has r.lease_until_ms ≡ is_processing r.status
    resultless : is_completed r.status ≡ false → r.result ≡ none
    errorless : is_failed_value r.status ≡ false → r.error ≡ none
    not_skipped : is_skipped_value r.status ≡ false

  to_status-IsShaped : (r : LuaRecord) → Shaped r → IsShaped (to_status R config r)
  to_status-IsShaped r q = record {
    leased = elim (Option-cases r.lease_until_ms) [
      | inl e ↦ let l = q.leased in ground arith
      | inr (x, e) ↦ let l = q.leased in ground arith
    ];
    resultless = elim (Bool-cases (is_completed r.status)) [
      | inl e ↦ ground arith
      | inr e ↦ let l = q.resultless e in ground arith
    ];
    errorless = elim (Bool-cases (is_failed_value r.status)) [
      | inl e ↦ ground arith
      | inr e ↦ let l = q.errorless e in ground arith
    ];
    not_skipped = q.not_skipped;
  }

  claim-Shaped :
      (id : String) (s : R.State)
      → 0 < config.ttl_seconds
      → Every R L config Shaped s
      → Every R L config Shaped (run_claim R L config id s).1
  unfolding first_record re_claimed
  claim-Shaped id s pos every =
      run_claim-Every R L config Shaped id s pos
        (λ now until. record {
          leased = refl;
          resultless = λ h. refl;
          errorless = λ h. refl;
          not_skipped = refl;
        })
        (λ now until r open_still q. record {
          leased = refl;
          resultless = λ h. q.resultless open_still;
          errorless = λ h. refl;
          not_skipped = refl;
        })
        every

  complete-Shaped :
      (id json : String) (s : R.State)
      → Every R L config Shaped s
      → Every R L config Shaped (run_update R L config id completed json "" none s).1
  unfolding update_record string_discrete
  complete-Shaped id json s every =
      run_update-Every R L config Shaped id completed json "" none s
        (λ now r running q. record {
          leased = refl;
          resultless = λ h. absurd (cc);
          errorless = λ h. q.errorless (ground arith);
          not_skipped = refl;
        })
        every

  fail-Shaped :
      (id error : String) (n : ℕ) (s : R.State)
      → Every R L config Shaped s
      → Every R L config Shaped (run_update R L config id failed "" error (some n) s).1
  unfolding update_record string_discrete
  fail-Shaped id error n s every =
      run_update-Every R L config Shaped id failed "" error (some n) s
        (λ now r running q. record {
          leased = refl;
          resultless = λ h. q.resultless (ground arith);
          errorless = λ h. absurd (cc);
          not_skipped = refl;
        })
        every

  after-Shaped :
      (s : R.State) (c : Call)
      → Sound R L config s
      → Every R L config Shaped s
      → Every R L config Shaped (after R L config s c)
  after-Shaped s (claims id) u every =
      claim_leaves R L config (Every R L config Shaped) id s every (claim-Shaped id s u.ttl every)
  after-Shaped s (completes id v) u every =
      complete_leaves R L config (Every R L config Shaped) id v s every
        (λ json. complete-Shaped id json s every)
  after-Shaped s (fails id e n) u every =
      fail_leaves R L config (Every R L config Shaped) id e n s every (fail-Shaped id e n s every)

  Run-Shaped :
      {s t : R.State}
      → Sound R L config s
      → Every R L config Shaped s
      → Run R L config s t
      → Every R L config Shaped t
  Run-Shaped u every start = every
  Run-Shaped u every (calls {t = t} r c) =
      after-Shaped t c (Run-Sound R L config u r) (Run-Shaped u every r)
  Run-Shaped u every (drifts r d) =
      λ id. subst (Each R L config Shaped) (sym (d.keys (redis_key id))) (Run-Shaped u every r id)

  -- What `get_status` of the Redis store returns, after any sequence of claims, completions and
  -- failures of any messages by any clients, answered or not, has a lease exactly while it is
  -- PROCESSING, a result only when it is COMPLETED, an error text only when it is FAILED, and is never
  -- SKIPPED. The records before the calls are of this shape, as where there are none.
  pub get_status-IsShaped :
      (s t : R.State) (id : String) (r : ProcessingStatus)
      → Sound R L config s
      → Every R L config Shaped s
      → Run R L config s t
      → (get_status R config id t).0 ≡ ok (some r)
      → IsShaped r
  get_status-IsShaped s t id r u every calls_made h =
      let f = get_status-Found R L config id r t (got-fine R config id r t (R.fault t) refl h) h in
      subst IsShaped f.reads_as (
        to_status-IsShaped (R.decode f.raw)
          (subst (Each R L config Shaped) f.stored_as (Run-Shaped u every calls_made id)))
