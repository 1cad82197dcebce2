-- ===== src/Dedup/Workers/Late.antt =====
-- A caller that marks its record after its lease is over, when another one has the message.
use message_deduplication_id.Prelude.{ℕ, ◌+◌, ◌<◌, String, ◌≡◌, ap, ◌∙◌, true, false, some, arith}
use message_deduplication_id.Prelude.Exec.{ok}
use message_deduplication_id.Dedup.Lifecycle.{running, broken, claimable, spec_fail}
use message_deduplication_id.Dedup.Store.{Store, Contract}
use message_deduplication_id.Dedup.Races.{spec_claim_wins}
use message_deduplication_id.Dedup.Workers.{lease_end}
use message_deduplication_id.Dedup.Workers.Held.{leased-false}

module _ (S : Store) (C : Contract S) (id : String) where
  failed-claimable :
      (s : S.State) (k : ℕ)
      → (C.rules s).retry_failed ≡ true
      → k < (C.rules s).max_retries
      → claimable (C.rules s) (C.now s) (some (broken k)) ≡ true
  unfolding claimable
  failed-claimable s k retried below = ground arith

  -- A message on which a caller works under a lease that runs cannot be claimed. After the late
  -- `mark_failed` of an earlier caller, with retries left by that caller's count, it can be: the next
  -- claim wins it under a lease of its own, and the lease of the caller that works on it still runs.
  pub mark_failed_overlaps :
      (s : S.State) (e : String) (k n until : ℕ)
      → C.Up s
      → C.view s id ≡ some (running n (some until))
      → C.now s < until
      → (C.rules s).retry_failed ≡ true
      → k < (C.rules s).max_retries
      → let t = (S.mark_failed id e k s).1 in
        ((S.claim id s).0 ≡ ok false)
        × ((S.claim id t).0 ≡ ok true)
        × (C.view (S.claim id t).1 id ≡ some (running (k + 1) (some (lease_end S C id t))))
        × (C.now (S.claim id t).1 < until)
  unfolding spec_fail
  mark_failed_overlaps s e k n until up held runs retried below =
      let t = (S.mark_failed id e k s).1 in
      let (up', same_rules, same_now) = C.fail_keeps id e k s up in
      let (up'', same_rules', same_now') = C.claim_keeps id t up' in
      let view : C.view t id ≡ some (broken k) =
        ground (arith, C.fail_view id id e k n (some until) s up held) in
      let free : claimable (C.rules t) (C.now t) (C.view t id) ≡ true = rw view (
        failed-claimable t k (ap (λ r. r.retry_failed) same_rules ∙ retried)
          (rw same_rules below)) in
      (
        leased-false S C id s n until up held runs,
        C.claim_answer id t up' ∙ ap ok free,
        ground (
          arith,
          C.claim_view id id t up',
          spec_claim_wins (C.rules t) (C.now t) (C.view t id) free,
        ),
        omega arith,
      )
