-- ===== src/Consumer/Process/Effects.antt =====
-- What the processing of one record does to a store that keeps its contract.
use native.Mathlib.Numerals.{add-one}
use message_deduplication_id.Prelude.{
  ℕ, suc, ◌+◌, ◌≤◌, String, ◌≡◌, ◌≢◌, refl, ap, ◌∙◌, Bool, true, false, Option, none, some, arith,
  if◌then◌else◌,
}
use message_deduplication_id.Prelude.Exec.{Exn, Exec, Result, ok}
use message_deduplication_id.Dedup.{Value, ProcessingStatus}
use message_deduplication_id.Dedup.Lifecycle.{Phase, running, done, phase, claimable, spec_claim}
use message_deduplication_id.Dedup.Store.{Store, Contract}
use message_deduplication_id.Idempotency.Guard.Laws.{Leaves, view-completed}
use message_deduplication_id.Metrics.{
  record_duplicate, record_claim_lost, rise, fall, observe_store_op,
}
use message_deduplication_id.Consumer.Message.{Codec, ConsumerRecord, has_bytes, extract_message_id}
use message_deduplication_id.Consumer.Process.{
  Broker, Consumer, World, finally, commit, complete, store_result, attempt_loop, payload_of,
  execute_and_commit, skip, in_flight, process_claimed, process_with, process_record,
}

unfoldable pub is_running : Option Phase → Bool
is_running (some (running n l)) = true
is_running _ = false

module _ (S : Store) (K : Codec) (B : Broker K) (self : Consumer)
    (handle : Value → Exec S.State Value) (sleep : ℕ → Exec S.State Unit) where
  in_flight-is_running :
      (q : Option ProcessingStatus) (p : Option Phase)
      → phase q ≡ p
      → in_flight S K B self handle sleep q ≡ is_running p
  unfolding is_running
  in_flight-is_running none p h = ground arith
  in_flight-is_running (some q) p h = ground arith

module _ (S : Store) (C : Contract S) (K : Codec) (B : Broker K) (self : Consumer)
    (handle : Value → Exec S.State Value) (sleep : ℕ → Exec S.State Unit) (r : ConsumerRecord K)
    (id : String) (named : extract_message_id K r ≡ ok (some id)) where
  abbrev pub process : World S K B → Result (Unit {0}) × World S K B
  process = process_record S K B self handle sleep r

  abbrev pub after_claim : World S K B → World S K B
  after_claim w = record w {
    store = (S.claim id w.store).1;
    metrics = observe_store_op "claim" w.metrics;
  }

  pub process-won :
      (w : World S K B)
      → C.Up w.store
      → claimable (C.rules w.store) (C.now w.store) (C.view w.store id) ≡ true
      → process w ≡ process_claimed S K B self handle sleep r id (after_claim w)
  unfolding process_record process_with
  process-won w up free = ground (arith, named, C.claim_answer id w.store up)

  process-lost :
      (w : World S K B)
      → C.Up w.store
      → claimable (C.rules w.store) (C.now w.store) (C.view w.store id) ≡ false
      → process w ≡ skip S K B self handle sleep r id (after_claim w)
  unfolding process_record process_with
  process-lost w up taken = ground (arith, named, C.claim_answer id w.store up)

  -- A message that cannot be claimed: `handle` is not run. It is counted as lost to another
  -- consumer while its record is PROCESSING, and as a duplicate otherwise, and the offset is
  -- committed.
  pub process-skipped :
      (w : World S K B)
      → C.Up w.store
      → claimable (C.rules w.store) (C.now w.store) (C.view w.store id) ≡ false
      → process w
        ≡ commit S K B self handle sleep (record w {
          store = (S.claim id w.store).1;
          metrics =
              (if is_running (C.view w.store id)
                  then record_claim_lost r.topic
                  else record_duplicate r.topic)
                (observe_store_op "get_status" (observe_store_op "claim" w.metrics));
        })
  unfolding skip spec_claim
  process-skipped w up taken =
      let (q, got, same) = C.status_answer id _ (C.claim_keeps id w.store up).0 in
      let kept : C.view (S.claim id w.store).1 id ≡ C.view w.store id =
        ground (arith, C.claim_view id id w.store up) in
      process-lost w up taken
      ∙ ground (arith, got, in_flight-is_running S K B self handle sleep q _ (same ∙ kept))

  pub commit-store : (w : World S K B) → (commit S K B self handle sleep w).1.store ≡ w.store
  unfolding commit
  commit-store w = ground arith

  pub complete-store :
      (v : Value) (w : World S K B)
      → id ≢ ""
      → (complete S K B self handle sleep r (some id) v w).1.store
        ≡ (S.mark_completed id v w.store).1
  unfolding complete store_result commit
  complete-store v w ne = ground arith

  process-done :
      (v : Value) (w : World S K B)
      → C.Up w.store
      → C.view w.store id ≡ some (done v)
      → ((process w).1.store ≡ (S.claim id w.store).1)
        × (C.view (S.claim id w.store).1 id ≡ some (done v))
  unfolding claimable spec_claim
  process-done v w up h = (
    ap (λ x. x.1.store) (process-skipped w up (ground arith)) ∙ commit-store _,
    ground (arith, C.claim_view id id w.store up),
  )

  pub loop-returned :
      (fuel attempts : ℕ) (p v : Value) (l : Option Exn) (w : World S K B) (t : S.State)
      → attempts ≤ self.config.max_retries
      → handle p w.store ≡ (ok v, t)
      → attempt_loop S K B self handle sleep (suc fuel) r (some id) p attempts l w
        ≡ complete S K B self handle sleep r (some id) v (record w { store = t })
  unfolding attempt_loop
  loop-returned fuel attempts p v l w t le h = ground arith

  abbrev pub payload : Result Value
  payload = payload_of S K B self handle sleep (has_bytes K r.value)

  abbrev pub entered : World S K B → World S K B
  entered w = record (after_claim w) { metrics = rise r.topic (after_claim w).metrics }

  pub claimed-loop :
      (p : Value) (w : World S K B)
      → payload ≡ ok p
      → process_claimed S K B self handle sleep r id (after_claim w)
        ≡ finally S K B
            (attempt_loop S K B self handle sleep
              (self.config.max_retries + 1)
              r
              (some id)
              p
              1
              none)
            (fall r.topic)
            (entered w)
  unfolding process_claimed execute_and_commit
  claimed-loop p w h = ground arith

  module _ (p : Value) (parsed : payload ≡ ok p) (some_tries : 1 ≤ self.config.max_retries)
      (w : World S K B) (t : S.State) (up : C.Up w.store)
      (free : claimable (C.rules w.store) (C.now w.store) (C.view w.store id) ≡ true) where
    process-returned :
        (v : Value)
        → handle p (S.claim id w.store).1 ≡ (ok v, t)
        → id ≢ ""
        → (process w).1.store ≡ (S.mark_completed id v t).1
    process-returned v h ne =
        rw
          (
            process-won w up free ∙ claimed-loop p w parsed,
            add-one,
            loop-returned self.config.max_retries 1 p v none (entered w) t some_tries h,
          )
          (complete-store v (record (entered w) { store = t }) ne)

    -- `handle` ran once and returned: `mark_completed` with its result is the last that the store is
    -- asked, and the record is COMPLETED with it. When the same record is delivered again, at any time,
    -- with nothing done to its record in the store in between, `handle` does not run: the claim is
    -- refused, the record is counted as a duplicate and committed, and it stays COMPLETED.
    pub process-process :
        (v : Value)
        → handle p (S.claim id w.store).1 ≡ (ok v, t)
        → id ≢ ""
        → Leaves S C id (S.claim id w.store).1 t
        → C.Storable v
        → (w' : World S K B) → Leaves S C id (process w).1.store w'.store
        → ((process w).1.store ≡ (S.mark_completed id v t).1)
          × (C.view (process w).1.store id ≡ some (done v))
          × (process w'
              ≡ commit S K B self handle sleep (record w' {
                store = (S.claim id w'.store).1;
                metrics =
                    record_duplicate r.topic
                      (observe_store_op "get_status" (observe_store_op "claim" w'.metrics));
              }))
          × (C.view (process w').1.store id ≡ some (done v))
    unfolding claimable is_running
    process-process v h ne quiet can w' untouched =
        let stored = process-returned v h ne in
        let finished : C.view (process w).1.store id ≡ some (done v) =
          ap (λ s. C.view s id) stored ∙ view-completed S C id v w.store t up free quiet can in
        let still : C.view w'.store id ≡ some (done v) = untouched.view ∙ finished in
        let (skips, kept) = process-done v w' untouched.up still in
        (
          stored,
          finished,
          process-skipped w' untouched.up (ground (arith, still)) ∙ rw still refl,
          ap (λ s. C.view s id) skips ∙ kept,
        )
