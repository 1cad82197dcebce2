-- ===== src/Consumer/Process/Raises.antt =====
-- Exceptions that reach the consumer from elsewhere than `handle`.
use native.Mathlib.Numerals.{add-one}
use message_deduplication_id.Prelude.{
  ℕ, ◌≤◌, String, ◌≡◌, ◌≢◌, ap, ◌∙◌, true, none, some, List, ◌∷◌, arith,
}
use message_deduplication_id.Prelude.Exec.{Exn, exception, ok, raised, Exec, ◌>>◌}
use message_deduplication_id.Dedup.{Value}
use message_deduplication_id.Dedup.Lifecycle.{claimable}
use message_deduplication_id.Dedup.Store.{Store, Contract}
use message_deduplication_id.Metrics.{record_processed, record_error, rise, fall, observe_store_op}
use message_deduplication_id.Consumer.Message.{Codec, ConsumerRecord, header_id, extract_message_id}
use message_deduplication_id.Consumer.Process.{
  Broker, Consumer, World, Delivery, measure, finally, commit, complete, store_result, process_with,
  process_record, run_loop, run,
}
use message_deduplication_id.Consumer.Process.Effects.{
  process, payload, entered, claimed-loop, process-won, loop-returned,
}

module _ (S : Store) (K : Codec) (B : Broker K) (self : Consumer)
    (handle : Value → Exec S.State Value) (sleep : ℕ → Exec S.State Unit)
    (started : self.has_consumer ≡ true) where
  -- An `X-Message-Id` header whose bytes do not decode ends the run: the exception of `decode` is
  -- raised, nothing is counted and nothing is committed.
  pub run_undecodable :
      (r : ConsumerRecord K) (b : K.Bytes) (e : Exn) (rest : List (Delivery K)) (w : World S K B)
      → header_id K r.headers ≡ some b
      → K.decode b ≡ raised e
      → run S K B self handle sleep (ok (true, r) ∷ rest) w ≡ (raised e, w)
  unfolding run run_loop process_record extract_message_id
  run_undecodable r b e rest w there bad = ground arith

  -- Where the claim raises, as when Redis cannot be reached, the run ends with that exception:
  -- `handle` is not run without a claim, nothing is committed, and nothing is recorded but the time
  -- of the claim.
  pub run_unclaimed :
      (r : ConsumerRecord K) (id : String) (e : Exn) (rest : List (Delivery K)) (w : World S K B)
      (s : S.State)
      → extract_message_id K r ≡ ok (some id)
      → S.claim id w.store ≡ (raised e, s)
      → run S K B self handle sleep (ok (true, r) ∷ rest) w
        ≡ (raised e, record w { store = s; metrics = observe_store_op "claim" w.metrics })
  unfolding run run_loop process_record process_with
  run_unclaimed r id e rest w s named down = ground arith

module _ (S : Store) (C : Contract S) (K : Codec) (B : Broker K) (self : Consumer)
    (handle : Value → Exec S.State Value) (sleep : ℕ → Exec S.State Unit) (r : ConsumerRecord K)
    (id : String) (named : extract_message_id K r ≡ ok (some id)) where
  complete-raised :
      (v : Value) (name message : String) (w : World S K B) (s : S.State)
      → id ≢ ""
      → S.mark_completed id v w.store ≡ (raised (exception name message), s)
      → complete S K B self handle sleep r (some id) v w
        ≡ (commit S K B self handle sleep >> measure S K B (record_processed r.topic)) (record w {
          store = s;
          metrics = record_error r.topic name (observe_store_op "mark_completed" w.metrics);
        })
  unfolding complete store_result
  complete-raised v name message w s ne h = ground arith

  -- `handle` returned, and then `mark_completed` raises an Exception: `handle` is not run again. The
  -- error is counted, the offset is committed, and the message is counted as processed.
  pub process-unstored :
      (p v : Value) (name message : String) (w : World S K B) (s t : S.State)
      → payload S C K B self handle sleep r id named ≡ ok p
      → 1 ≤ self.config.max_retries
      → id ≢ ""
      → C.Up w.store
      → claimable (C.rules w.store) (C.now w.store) (C.view w.store id) ≡ true
      → handle p (S.claim id w.store).1 ≡ (ok v, t)
      → S.mark_completed id v t ≡ (raised (exception name message), s)
      → process S C K B self handle sleep r id named w
        ≡ finally S K B
            (commit S K B self handle sleep >> measure S K B (record_processed r.topic))
            (fall r.topic)
            (record w {
              store = s;
              metrics = record_error r.topic name (
                  observe_store_op "mark_completed"
                    (rise r.topic (observe_store_op "claim" w.metrics)));
            })
  process-unstored p v name message w s t parsed some_tries ne up free ran refused =
      let inside = entered S C K B self handle sleep r id named w in
      process-won S C K B self handle sleep r id named w up free
      ∙ claimed-loop S C K B self handle sleep r id named p w parsed
      ∙ ap (λ z. (z.0, record z.1 { metrics = fall r.topic z.1.metrics }))
          (rw add-one (
              loop-returned S C K B self handle sleep r id named self.config.max_retries 1 p v none
                inside t some_tries ran)
            ∙ complete-raised v name message (record inside { store = t }) s ne refused)
