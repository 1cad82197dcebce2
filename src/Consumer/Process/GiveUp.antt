-- ===== src/Consumer/Process/GiveUp.antt =====
-- What becomes of a message whose `handle` fails at every attempt, and of its redelivery.
use mathlib.Core.Path.{subst, sym}
use message_deduplication_id.Prelude.{
  ℕ, ◌+◌, ◌-◌, ◌≤◌, String, ◌≡◌, ◌≢◌, refl, ap, ◌∙◌, true, false, Option, none, some, arith,
}
use message_deduplication_id.Prelude.Exec.{Exn, exception, Result, ok, raised, Exec, exn_message}
use message_deduplication_id.Dedup.{Value}
use message_deduplication_id.Dedup.Lifecycle.{broken, claimable}
use message_deduplication_id.Dedup.Store.{Store, Contract}
use message_deduplication_id.Idempotency.Guard.Laws.{view-won}
use message_deduplication_id.Metrics.{record_duplicate, fall, observe_store_op}
use message_deduplication_id.Consumer.Message.{Codec, ConsumerRecord, extract_message_id}
use message_deduplication_id.Consumer.Process.{
  Broker, Consumer, World, finally, commit, send_to_dlq, give_up,
}
use message_deduplication_id.Consumer.Process.Effects.{
  process, payload, entered, claimed-loop, process-won, process-skipped, is_running,
}
use message_deduplication_id.Consumer.Process.Exhaustion.{
  Fails, Tries, Spent, Tries-along, loop, loop-Spent,
}

module _ (S : Store) (C : Contract S) (K : Codec) (B : Broker K) (self : Consumer)
    (handle : Value → Exec S.State Value) (sleep : ℕ → Exec S.State Unit) (r : ConsumerRecord K)
    (id : String) (p : Value) where
  used_up :
      (s : S.State)
      → Tries S C K B self handle sleep r id p s
      → C.view s id ≡ some (broken self.config.max_retries)
      → claimable (C.rules s) (C.now s) (C.view s id) ≡ false
  unfolding claimable
  used_up s h e = ground (arith, h.limit)

  pub give_up-store :
      (l : Option Exn) (w : World S K B) → (give_up S K B self handle sleep r l w).1.store ≡ w.store
  unfolding give_up send_to_dlq commit
  give_up-store l w = ground arith

  module _ (named : extract_message_id K r ≡ ok (some id)) (ne : id ≢ "")
      (parsed : payload S C K B self handle sleep r id named ≡ ok p)
      (some_tries : 1 ≤ self.config.max_retries) (f : Fails S C K B self handle sleep r id p)
      (w : World S K B) (up : C.Up w.store) (h : Tries S C K B self handle sleep r id p w.store)
      (free : claimable (C.rules w.store) (C.now w.store) (C.view w.store id) ≡ true) where
    abbrev pub run : World S K B → Result (Unit {0}) × World S K B
    run = process S C K B self handle sleep r id named

    abbrev started : World S K B
    started = entered S C K B self handle sleep r id named w

    exhausted :
        Spent S C K B self handle sleep r id p started
          (loop S C K B self handle sleep r id p (self.config.max_retries + 1) 1 none started)
    exhausted =
        let (n, lease, held) = view-won S C id w.store up free in
        let (up', rules, now) = C.claim_keeps id w.store up in
        loop-Spent S C K B self handle sleep r id p (self.config.max_retries - 1)
          (self.config.max_retries + 1) 1 n lease none started f ne (omega arith) (omega arith) up'
          (Tries-along S C K B self handle sleep r id p rules h) held

    run-exhausted :
        let x = exhausted in
        run w
        ≡ finally S K B
            (give_up S K B self handle sleep r (some (exception x.name x.message)))
            (fall r.topic)
            x.last
    run-exhausted =
        process-won S C K B self handle sleep r id named w up free
        ∙ claimed-loop S C K B self handle sleep r id named p w parsed
        ∙ ap (λ z. (z.0, record z.1 { metrics = fall r.topic z.1.metrics })) exhausted.gives_up

    pub process-give_up :
        (e : Exn) × (entry : S.State) × (after : S.State) × (handle p entry ≡ (raised e, after))
        × (last : World S K B) × (last.broker ≡ w.broker)
        × (last.store ≡ (S.mark_failed id (exn_message e) self.config.max_retries after).1)
        × (C.view last.store id ≡ some (broken self.config.max_retries))
        × (run w ≡ finally S K B (give_up S K B self handle sleep r (some e)) (fall r.topic) last)
    process-give_up =
        let x = exhausted in
        (
          exception x.name x.message,
          x.entry,
          x.after,
          x.attempt,
          x.last,
          x.broker,
          x.marked,
          x.spent,
          run-exhausted,
        )

    -- After that, the same record is a duplicate: `handle` is not run again, and the offset is
    -- committed.
    pub process_after_give_up :
        (w' : World S K B)
        → w'.store ≡ (run w).1.store
        → run w'
          ≡ commit S K B self handle sleep (record w' {
            store = (S.claim id w'.store).1;
            metrics =
                record_duplicate r.topic
                  (observe_store_op "get_status" (observe_store_op "claim" w'.metrics));
          })
    unfolding is_running
    process_after_give_up w' same =
        let x = exhausted in
        let stored : w'.store ≡ x.last.store =
          same
          ∙ ap (λ z. z.1.store) run-exhausted
          ∙ give_up-store (some (exception x.name x.message)) x.last in
        let view' : C.view w'.store id ≡ some (broken self.config.max_retries) =
          ap (λ s. C.view s id) stored ∙ x.spent in
        process-skipped S C K B self handle sleep r id named w' (subst C.Up (sym stored) x.up) (
          used_up w'.store
            (Tries-along S C K B self handle sleep r id p (ap C.rules stored) x.tries) view')
        ∙ rw view' refl
