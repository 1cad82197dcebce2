-- ===== src/Consumer/Process/Unanswered.antt =====
-- The consumer over the Redis store, when the answer to the claim of a record is lost.
use message_deduplication_id.Prelude.{
  ℕ, ◌+◌, String, ◌≡◌, ◌∙◌, inl, inr, true, some, leb, arith, if◌then◌else◌, Bool-cases,
}
use message_deduplication_id.Prelude.Exec.{Exn, Exec, ok, raised}
use message_deduplication_id.Dedup.{Value, DeduplicationConfig}
use message_deduplication_id.Dedup.Lifecycle.{claimable, spec_claim}
use message_deduplication_id.Dedup.Redis.Protocol.{fine, unanswered, Server, IsLawful}
use message_deduplication_id.Dedup.Redis.{claim}
use message_deduplication_id.Dedup.Redis.Laws.{view, rules, now}
use message_deduplication_id.Dedup.Redis.Refines.{redis, redis-Contract}
use message_deduplication_id.Dedup.Redis.Outcomes.{Sound}
use message_deduplication_id.Dedup.Redis.Calls.{Drift}
use message_deduplication_id.Dedup.Redis.Lost.{
  claim-unanswered, held_after, leased-leb, answered_again,
}
use message_deduplication_id.Metrics.{record_claim_lost, observe_store_op}
use message_deduplication_id.Consumer.Message.{Codec, ConsumerRecord, extract_message_id}
use message_deduplication_id.Consumer.Process.{
  Broker, Consumer, World, commit, process_claimed, process_with, process_record,
}
use message_deduplication_id.Consumer.Process.Effects.{is_running, process-won, process-skipped}

module _ (R : Server) (L : IsLawful R) (config : DeduplicationConfig) (K : Codec) (B : Broker K)
    (self : Consumer) (handle : Value → Exec R.State Value) (sleep : ℕ → Exec R.State Unit)
    (r : ConsumerRecord K) (id : String) (named : extract_message_id K r ≡ ok (some id)) where
  abbrev Here : Type 0
  Here = World (redis R L config) K B

  -- The exception of the claim is not caught in the consumer.
  claim_raises :
      (e : Exn) (w : Here)
      → R.fault w.store ≡ unanswered e
      → process_record (redis R L config) K B self handle sleep r w ≡ (
        raised e,
        record w {
          store = (claim R config id w.store).1;
          metrics = observe_store_op "claim" w.metrics;
        },
      )
  unfolding process_record process_with
  claim_raises e w lost = ground (arith, named, claim-unanswered R L config id w.store e lost)

  taken-is_running :
      (s t : R.State)
      → claimable (rules R L config) (now R L config s) (view R L config s id) ≡ true
      → view R L config t id
        ≡ spec_claim (rules R L config) (now R L config s) (view R L config s id)
      → is_running (view R L config t id) ≡ true
  unfolding is_running spec_claim
  taken-is_running s t free h = ground arith

  -- A record whose claim the Redis server grants and does not answer, and that is delivered again
  -- once the server answers, with no call for its message in between: the first processing raises the
  -- exception of the connection, and nothing has run and nothing is committed. If the lease of that
  -- claim is not over, the second one runs nothing either: it counts the record as lost to another
  -- consumer and commits its offset. From the end of the lease on it processes the record.
  pub process_unanswered :
      (e : Exn) (w w' : Here)
      → Sound R L config w.store
      → R.fault w.store ≡ unanswered e
      → claimable (rules R L config) (now R L config w.store) (view R L config w.store id) ≡ true
      → Drift R L config (claim R config id w.store).1 w'.store
      → R.fault w'.store ≡ fine
      → (process_record (redis R L config) K B self handle sleep r w ≡ (
        raised e,
        record w {
          store = (claim R config id w.store).1;
          metrics = observe_store_op "claim" w.metrics;
        },
      ))
        × (process_record (redis R L config) K B self handle sleep r w' ≡ (
            if leb (now R L config w.store + (rules R L config).lease) (now R L config w'.store)
            then process_claimed (redis R L config) K B self handle sleep r id (record w' {
              store = (claim R config id w'.store).1;
              metrics = observe_store_op "claim" w'.metrics;
            })
            else commit (redis R L config) K B self handle sleep (record w' {
              store = (claim R config id w'.store).1;
              metrics =
                  record_claim_lost r.topic
                    (observe_store_op "get_status" (observe_store_op "claim" w'.metrics));
            })))
  unfolding redis-Contract
  process_unanswered e w w' u lost free d back =
      let up = answered_again R L config id w.store w'.store u d back in
      let held = held_after R L config id w.store w'.store e u lost d in
      let runs = taken-is_running w.store w'.store free held in
      let C = redis-Contract R L config in
      (
        claim_raises e w lost,
        elim (Bool-cases (
            claimable (rules R L config) (now R L config w'.store) (view R L config w'.store id))) [
              | inl won ↦
                  process-won (redis R L config) C K B self handle sleep r id named w' up won
                  ∙ ground (arith, leased-leb R L config id w.store w'.store free held)
              | inr taken ↦
                  process-skipped (redis R L config) C K B self handle sleep r id named w' up taken
                  ∙ ground (arith, runs, leased-leb R L config id w.store w'.store free held)
            ],
      )
