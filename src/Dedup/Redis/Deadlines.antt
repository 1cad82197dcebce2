-- ===== src/Dedup/Redis/Deadlines.antt =====
-- When a record of the Redis store comes to the end of its life: the PX of the first claim, and the
-- KEEPTTL of every later write.
use message_deduplication_id.Prelude.{
  ℕ, ◌+◌, ◌*◌, ◌<◌, String, ◌≡◌, ap, ◌∙◌, Option, none, some, arith, string_discrete,
}
use message_deduplication_id.Dedup.{StatusValue, completed, failed, DeduplicationConfig}
use message_deduplication_id.Dedup.Redis.Protocol.{Server, IsLawful}
use message_deduplication_id.Dedup.Redis.{redis_key, now_ms, claim, lua_claim, first_record}
use message_deduplication_id.Dedup.Redis.Laws.{redis_key-==, run_claim, run_update}
use message_deduplication_id.Dedup.Redis.Clean.{run_claim_cases, run_update_cases}
use message_deduplication_id.Dedup.Redis.Refines.{Up, claim-run}
use message_deduplication_id.Dedup.Redis.Outcomes.{
  Sound, Up-Sound, claim_leaves, complete_leaves, fail_leaves, claim-Sound,
}
use message_deduplication_id.Dedup.Redis.Calls.{
  Call, claims, completes, fails, after, Run, start, calls, drifts, Run-Sound,
}

module _ (R : Server) (L : IsLawful R) (config : DeduplicationConfig) where
  -- The key is there, and it still expires when it did in `s`.
  record Lives (j : String) (d : Option ℕ) (s : R.State) : Type 0 where
    raw : R.Raw
    present : R.get (redis_key j) s ≡ some raw
    deadline : R.deadline (redis_key j) s ≡ d

  keepttl-Lives :
      (id j : String) (v : R.Raw) (d : Option ℕ) (s : R.State)
      → Lives j d s
      → Lives j d (R.set_keepttl (redis_key id) v s)
  keepttl-Lives id j v d s h = elim (string_discrete j id) [
    | yes e ↦ record {
      raw = v;
      present = rw (L.get-set_keepttl, redis_key-==) (ground arith);
      deadline = L.deadline-set_keepttl _ _ v s ∙ h.deadline;
    }
    | no ne ↦ record {
      raw = h.raw;
      present = rw (L.get-set_keepttl, redis_key-==) (ground (arith, h.present));
      deadline = L.deadline-set_keepttl _ _ v s ∙ h.deadline;
    }
  ]

  px-Lives :
      (id j : String) (v : R.Raw) (ttl : ℕ) (d : Option ℕ) (s : R.State)
      → 0 < ttl
      → R.get (redis_key id) s ≡ none
      → Lives j d s
      → Lives j d (R.set_px (redis_key id) v ttl s)
  px-Lives id j v ttl d s pos free h = elim (string_discrete j id) [
    | yes e ↦ absurd (ground (arith, h.present, ap redis_key e))
    | no ne ↦ record {
      raw = h.raw;
      present = rw (L.get-set_px, redis_key-==) (ground (arith, h.present));
      deadline = rw (L.deadline-set_px, redis_key-==) (ground (arith, h.deadline));
    }
  ]

  claim-Lives :
      (id j : String) (d : Option ℕ) (s : R.State)
      → 0 < config.ttl_seconds
      → Lives j d s
      → Lives j d (run_claim R L config id s).1
  claim-Lives id j d s pos h =
      run_claim_cases R L config (Lives j d) id s h
        (λ free. px-Lives id j _ _ d s (omega arith) free h) (λ raw e o. keepttl-Lives id j _ d s h)

  update-Lives :
      (id j : String) (status : StatusValue) (json error : String) (n : Option ℕ) (d : Option ℕ)
      (s : R.State)
      → Lives j d s
      → Lives j d (run_update R L config id status json error n s).1
  update-Lives id j status json error n d s h =
      run_update_cases R L config (Lives j d) id status json error n s h
        (λ raw e running. keepttl-Lives id j _ d s h)

  after-Lives :
      (s : R.State) (c : Call) (j : String) (d : Option ℕ)
      → Sound R L config s
      → Lives j d s
      → Lives j d (after R L config s c)
  after-Lives s (claims id) j d u h =
      claim_leaves R L config (Lives j d) id s h (claim-Lives id j d s u.ttl h)
  after-Lives s (completes id v) j d u h =
      complete_leaves R L config (Lives j d) id v s h
        (λ json. update-Lives id j completed json "" none d s h)
  after-Lives s (fails id e n) j d u h =
      fail_leaves R L config (Lives j d) id e n s h (update-Lives id j failed "" e (some n) d s h)

  Run-Lives :
      {s t : R.State} (j : String) (d : Option ℕ)
      → Sound R L config s
      → Run R L config s t
      → Lives j d s
      → Lives j d t
  Run-Lives j d u start h = h
  Run-Lives j d u (calls {t = t} r c) h =
      after-Lives t c j d (Run-Sound R L config u r) (Run-Lives j d u r h)
  Run-Lives j d u (drifts r w) h =
      let l = Run-Lives j d u r h in
      record {
        raw = l.raw;
        present = w.keys (redis_key j) ∙ l.present;
        deadline = w.deadlines (redis_key j) ∙ l.deadline;
      }

  first_claim-Lives :
      (id : String) (s : R.State)
      → Up R L config s
      → R.get (redis_key id) s ≡ none
      → Lives id (some (now_ms R config s + config.ttl_seconds * 1000)) (claim R config id s).1
  unfolding lua_claim now_ms
  first_claim-Lives id s u free =
      let pos : 0 < config.ttl_seconds * 1000 = omega (arith, u.ttl) in
      rw (claim-run R L config id s u.answers, free, lua_claim)
        (record {
          raw = R.encode (
              first_record R config id (R.client_clock s)
                (now_ms R config s + config.processing_timeout_seconds * 1000));
          present = rw L.get-set_px (ground arith);
          deadline = rw L.deadline-set_px (ground arith);
        })

  -- A message that is first claimed in the Redis store at a time of the server's clock expires a time
  -- to live later: no later sequence of claims, completions and failures, by any clients, answered
  -- or not, and no wait in which no record expires, moves that date. The first claim is answered.
  pub run_first_claim :
      (id : String) (s t : R.State)
      → Up R L config s
      → R.get (redis_key id) s ≡ none
      → Run R L config (claim R config id s).1 t
      → R.deadline (redis_key id) t ≡ some (now_ms R config s + config.ttl_seconds * 1000)
  run_first_claim id s t u free r =
      (Run-Lives id _ (claim-Sound R L config id s (Up-Sound R L config s u)) r
        (first_claim-Lives id s u free)).deadline
