-- ===== src/Consumer/Process/Interrupted.antt =====
-- What interrupts the processing of a record: a cancellation, and a claim that is lost between two
-- attempts.
use native.Mathlib.Numerals.{add-one}
use message_deduplication_id.Prelude.{
  ℕ, suc, ◌+◌, ◌*◌, ◌≤◌, ◌<◌, String, ◌≡◌, ◌≢◌, ap, ◌∙◌, true, false, Option, none, some, arith,
}
use message_deduplication_id.Prelude.Exec.{
  Exn, base_exception, Exec, ok, raised, exn_name, exn_message,
}
use message_deduplication_id.Dedup.{Value}
use message_deduplication_id.Dedup.Lifecycle.{claimable, spec_claim}
use message_deduplication_id.Dedup.Store.{Store, Contract}
use message_deduplication_id.Idempotency.Guard.Laws.{Leaves}
use message_deduplication_id.Metrics.{record_retry, record_error, rise, fall, observe_store_op}
use message_deduplication_id.Consumer.Message.{Codec, ConsumerRecord, extract_message_id}
use message_deduplication_id.Consumer.Process.{
  Broker, Consumer, World, give_up, mark, reclaim, back_off, failed_attempt, attempt_loop,
}
use message_deduplication_id.Consumer.Process.Effects.{
  process, payload, entered, claimed-loop, process-won,
}

module _ (S : Store) (C : Contract S) (K : Codec) (B : Broker K) (self : Consumer)
    (handle : Value → Exec S.State Value) (sleep : ℕ → Exec S.State Unit) (r : ConsumerRecord K)
    (id : String) (named : extract_message_id K r ≡ ok (some id)) where
  pub loop-cancelled :
      (fuel attempts : ℕ) (p : Value) (name message : String) (l : Option Exn) (w : World S K B)
      (t : S.State)
      → attempts ≤ self.config.max_retries
      → handle p w.store ≡ (raised (base_exception name message), t)
      → attempt_loop S K B self handle sleep (suc fuel) r (some id) p attempts l w
        ≡ (raised (base_exception name message), record w { store = t })
  unfolding attempt_loop
  loop-cancelled fuel attempts p name message l w t le h = ground arith

  module _ (p : Value) (parsed : payload S C K B self handle sleep r id named ≡ ok p)
      (some_tries : 1 ≤ self.config.max_retries) (w : World S K B) (t : S.State) (up : C.Up w.store)
      (free : claimable (C.rules w.store) (C.now w.store) (C.view w.store id) ≡ true) where
    expired :
        (later : S.State)
        → Leaves S C id (S.claim id w.store).1 t
        → Leaves S C id t later
        → C.now w.store + (C.rules w.store).lease ≤ C.now later
        → claimable (C.rules later) (C.now later) (C.view later id) ≡ true
    unfolding claimable spec_claim
    expired later quiet untouched over =
        ground (arith, C.claim_view id id w.store up, quiet.view, untouched.view)

    pub process-ended :
        (name message : String)
        → handle p (S.claim id w.store).1 ≡ (raised (base_exception name message), t)
        → process S C K B self handle sleep r id named w ≡ (
          raised (base_exception name message),
          record (entered S C K B self handle sleep r id named w) {
            store = t;
            metrics = fall r.topic (rise r.topic (observe_store_op "claim" w.metrics));
          },
        )
    process-ended name message h =
        process-won S C K B self handle sleep r id named w up free
        ∙ claimed-loop S C K B self handle sleep r id named p w parsed
        ∙ rw (
          add-one,
          loop-cancelled self.config.max_retries 1 p name message none
              (entered S C K B self handle sleep r id named w) t some_tries h,
        )

    -- A cancelled `handle`: the cancellation goes on, nothing is committed, and the record keeps the
    -- lease of the claim. Once the lease is over, and if nothing else has touched the record, the
    -- next claim of the message wins.
    pub process-cancelled :
        (name message : String)
        → handle p (S.claim id w.store).1 ≡ (raised (base_exception name message), t)
        → Leaves S C id (S.claim id w.store).1 t
        → (later : S.State) → Leaves S C id t later
        → C.now w.store + (C.rules w.store).lease ≤ C.now later
        → ((process S C K B self handle sleep r id named w).0
            ≡ raised (base_exception name message))
          × ((process S C K B self handle sleep r id named w).1.broker ≡ w.broker)
          × ((process S C K B self handle sleep r id named w).1.store ≡ t)
          × ((S.claim id later).0 ≡ ok true)
    process-cancelled name message h quiet later untouched over =
        let ended = process-ended name message h in
        (
          ap (λ x. x.0) ended,
          ap (λ x. x.1.broker) ended,
          ap (λ x. x.1.store) ended,
          C.claim_answer id later untouched.up ∙ ap ok (expired later quiet untouched over),
        )

  -- A claim that is lost in the wait between two attempts ends the processing: the message goes to
  -- the dead letter queue, with attempts left, whatever the caller that holds it now makes of it.
  pub reclaim-lost :
      (attempts : ℕ) (e : Exn) (next : Exec (World S K B) Unit) (w : World S K B) (s t : S.State)
      → id ≢ ""
      → attempts < self.config.max_retries
      → S.mark_failed id (exn_message e) attempts w.store ≡ (ok tt, s)
      → sleep (self.config.retry_backoff_ms * attempts) s ≡ (ok tt, t)
      → (S.claim id t).0 ≡ ok false
      → failed_attempt S K B self handle sleep r (some id) attempts e next w
        ≡ give_up S K B self handle sleep r (some e) (record w {
          store = (S.claim id t).1;
          metrics = observe_store_op "claim" (
              record_retry r.topic
                (observe_store_op "mark_failed" (record_error r.topic (exn_name e) w.metrics)));
        })
  unfolding failed_attempt mark back_off reclaim
  reclaim-lost attempts e next w s t ne below marked slept lost = ground arith
