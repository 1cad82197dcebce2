-- ===== src/Consumer/Process/Redelivered.antt =====
-- A record whose `handle` was cancelled, delivered again while the lease of its claim runs, as after a
-- restart of the consumer.
use message_deduplication_id.Prelude.{
  ℕ, ◌+◌, ◌≤◌, ◌<◌, String, ◌≡◌, ap, ◌∙◌, true, false, some, arith,
}
use message_deduplication_id.Prelude.Exec.{base_exception, Exec, ok, raised}
use message_deduplication_id.Dedup.{Value}
use message_deduplication_id.Dedup.Lifecycle.{claimable, spec_claim}
use message_deduplication_id.Dedup.Store.{Store, Contract}
use message_deduplication_id.Idempotency.Guard.Laws.{Leaves}
use message_deduplication_id.Metrics.{record_claim_lost, observe_store_op}
use message_deduplication_id.Consumer.Message.{Codec, ConsumerRecord, extract_message_id}
use message_deduplication_id.Consumer.Process.{Broker, Consumer, World, commit}
use message_deduplication_id.Consumer.Process.Effects.{
  is_running, process, payload, process-skipped,
}
use message_deduplication_id.Consumer.Process.Interrupted.{process-ended}

module _ (S : Store) (C : Contract S) (K : Codec) (B : Broker K) (self : Consumer)
    (handle : Value → Exec S.State Value) (sleep : ℕ → Exec S.State Unit) (r : ConsumerRecord K)
    (id : String) (named : extract_message_id K r ≡ ok (some id)) (p : Value)
    (parsed : payload S C K B self handle sleep r id named ≡ ok p)
    (some_tries : 1 ≤ self.config.max_retries) (w : World S K B) (t : S.State) (up : C.Up w.store)
    (free : claimable (C.rules w.store) (C.now w.store) (C.view w.store id) ≡ true) where
  still_leased :
      (later : S.State)
      → Leaves S C id (S.claim id w.store).1 t
      → Leaves S C id t later
      → C.now later < C.now w.store + (C.rules w.store).lease
      → (claimable (C.rules later) (C.now later) (C.view later id) ≡ false)
        × (is_running (C.view later id) ≡ true)
  unfolding claimable spec_claim is_running
  still_leased later quiet untouched early = (
    ground (arith, C.claim_view id id w.store up, quiet.view, untouched.view),
    ground (arith, C.claim_view id id w.store up, quiet.view, untouched.view),
  )

  kept_running :
      (s : S.State)
      → C.Up s
      → claimable (C.rules s) (C.now s) (C.view s id) ≡ false
      → is_running (C.view s id) ≡ true
      → is_running (C.view (S.claim id s).1 id) ≡ true
  unfolding spec_claim
  kept_running s s-Up taken runs = ground (arith, C.claim_view id id s s-Up)

  -- A record whose `handle` was cancelled, so that nothing was committed, and that is delivered again
  -- before the lease of its claim is over: `handle` does not run, the record is counted as lost to
  -- another consumer and its offset is committed, and the message is still PROCESSING, with nobody
  -- at work on it. Nothing else has touched the record in between.
  pub process_redelivered :
      (name message : String)
      → handle p (S.claim id w.store).1 ≡ (raised (base_exception name message), t)
      → Leaves S C id (S.claim id w.store).1 t
      → (w' : World S K B) → Leaves S C id t w'.store
      → C.now w'.store < C.now w.store + (C.rules w.store).lease
      → ((process S C K B self handle sleep r id named w).1.broker ≡ w.broker)
        × (process S C K B self handle sleep r id named w'
            ≡ commit S K B self handle sleep (record w' {
              store = (S.claim id w'.store).1;
              metrics =
                  record_claim_lost r.topic
                    (observe_store_op "get_status" (observe_store_op "claim" w'.metrics));
            }))
        × (is_running (C.view (S.claim id w'.store).1 id) ≡ true)
  process_redelivered name message h quiet w' untouched early =
      let (taken, runs) = still_leased w'.store quiet untouched early in
      (
        ap (λ x. x.1.broker)
            (process-ended S C K B self handle sleep r id named p parsed some_tries w t up free name
              message h),
        process-skipped S C K B self handle sleep r id named w' untouched.up taken
            ∙ ground (arith, runs),
        kept_running w'.store untouched.up taken runs,
      )
