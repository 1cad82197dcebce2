-- ===== src/Dedup/Redis/Lost.antt =====
-- A claim that the server grants and whose answer does not come back.
use message_deduplication_id.Prelude.{◌+◌, String, ◌≡◌, ap, ◌∙◌, true, leb, arith}
use message_deduplication_id.Prelude.Exec.{Exn, raised}
use message_deduplication_id.Dedup.{DeduplicationConfig}
use message_deduplication_id.Dedup.Lifecycle.{claimable, spec_claim}
use message_deduplication_id.Dedup.Redis.Protocol.{fine, unanswered, Server, IsLawful}
use message_deduplication_id.Dedup.Redis.{claim}
use message_deduplication_id.Dedup.Redis.Laws.{view, rules, now, run_claim, view-run_claim}
use message_deduplication_id.Dedup.Redis.Refines.{Up}
use message_deduplication_id.Dedup.Redis.Outcomes.{Sound, claim-Sound}
use message_deduplication_id.Dedup.Redis.Calls.{Drift, Drift-view, Drift-Sound}

module _ (R : Server) (L : IsLawful R) (config : DeduplicationConfig) where
  pub claim-unanswered :
      (id : String) (s : R.State) (e : Exn)
      → R.fault s ≡ unanswered e
      → claim R config id s ≡ (raised e, (run_claim R L config id s).1)
  unfolding claim
  claim-unanswered id s e h = ground arith

  pub leased-leb :
      (id : String) (s t : R.State)
      → claimable (rules R L config) (now R L config s) (view R L config s id) ≡ true
      → view R L config t id
        ≡ spec_claim (rules R L config) (now R L config s) (view R L config s id)
      → claimable (rules R L config) (now R L config t) (view R L config t id)
        ≡ leb (now R L config s + (rules R L config).lease) (now R L config t)
  unfolding claimable spec_claim
  leased-leb id s t free h = ground arith

  -- While no call touches the message, its record is the one that the granted claim left.
  pub held_after :
      (id : String) (s t : R.State) (e : Exn)
      → Sound R L config s
      → R.fault s ≡ unanswered e
      → Drift R L config (claim R config id s).1 t
      → view R L config t id
        ≡ spec_claim (rules R L config) (now R L config s) (view R L config s id)
  held_after id s t e u lost d =
      Drift-view R L config id _ t d
      ∙ ap (λ z. view R L config z.1 id) (claim-unanswered id s e lost)
      ∙ ground (arith, view-run_claim R L config id id s u.ttl)

  pub answered_again :
      (id : String) (s t : R.State)
      → Sound R L config s
      → Drift R L config (claim R config id s).1 t
      → R.fault t ≡ fine
      → Up R L config t
  answered_again id s t u d back =
      let t-Sound = Drift-Sound R L config _ t (claim-Sound R L config id s u) d in
      record { answers = back; ttl = t-Sound.ttl; clean = t-Sound.clean }
