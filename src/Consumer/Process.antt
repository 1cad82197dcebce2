-- ===== src/Consumer/Process.antt =====
-- `_process_record`, `_execute_and_commit`, `_complete`, `_commit`, `_send_to_dlq` and `run`.
pub mod Bounded
pub mod Settles
pub mod Accounting
pub mod Effects
pub mod Interrupted
pub mod Redelivered
pub mod Unanswered
pub mod Runs
pub mod Exhaustion
pub mod GiveUp
pub mod Frame
pub mod Gauge
pub mod Raises
use message_deduplication_id.Prelude.{
  ℕ, zero, suc, ◌+◌, ◌*◌, String, Bool, true, false, not, ◌&&◌, ◌||◌, Option, none, some, List, [],
  ◌∷◌, ltb, leb, ◌==◌, if◌then◌else◌,
}
use message_deduplication_id.Prelude.Exec.{
  Exn, exception, base_exception, Result, ok, raised, Exec, pure, raise, ◌>>=◌, ◌>>◌, try_except,
  exn_name, exn_message,
}
use message_deduplication_id.Dedup.{
  Value, null, int, text, dict, Fields, empty, field, ProcessingStatus, is_processing,
  DeduplicationConfig,
}
use message_deduplication_id.Dedup.Store.{Store}
use message_deduplication_id.Metrics.{
  Metrics, record_processed, record_duplicate, record_claim_lost, record_no_message_id, record_dlq,
  record_retry, record_error, rise, fall, observe_store_op,
}
use message_deduplication_id.Consumer.Message.{Codec, ConsumerRecord, has_bytes, extract_message_id}

-- The Kafka client: `commit()`, and `send_and_wait` of a JSON document to a topic.
pub record Broker (K : Codec) : Type 1 where
  pub State : Type 0
  pub commit : Exec State Unit
  pub send_and_wait : String → Value → Option K.Bytes → Exec State Unit

-- What a step of `async for record in self._consumer` gives: a record, with `self._running` when it
-- arrives, or an exception of the client.
abbrev pub Delivery : Codec → Type 0
Delivery K = Result (Bool × ConsumerRecord K)

-- The fields of `DedupConsumer` that its methods read.
pub record Consumer : Type 0 where
  pub dlq_topic : Option String
  pub config : DeduplicationConfig
  pub has_consumer : Bool
  pub has_dlq_producer : Bool

module _ (S : Store) (K : Codec) (B : Broker K) where
  pub record World : Type 0 where
    pub store : S.State
    pub broker : B.State
    pub metrics : Metrics

  abbrev pub on_store : {A : Type 0} → Exec S.State A → Exec World A
  on_store m w = let (r, s) = m w.store in (r, record w { store = s })

  abbrev pub on_broker : {A : Type 0} → Exec B.State A → Exec World A
  on_broker m w = let (r, b) = m w.broker in (r, record w { broker = b })

  abbrev pub measure : (Metrics → Metrics) → Exec World Unit
  measure f w = (ok tt, record w { metrics = f w.metrics })

  -- try: … finally: measure
  abbrev pub finally : {A : Type 0} → Exec World A → (Metrics → Metrics) → Exec World A
  finally m f w = let (r, w') = m w in (r, record w' { metrics = f w'.metrics })

  -- with self._metrics.measure_store_op(operation): m
  abbrev pub timed : {A : Type 0} → String → Exec S.State A → Exec World A
  timed operation m = finally (on_store m) (observe_store_op operation)

  -- a text as a condition
  abbrev pub non_empty_text : Option String → Option String
  non_empty_text none = none
  non_empty_text (some t) = if t == "" then none else some t

  -- `handle` is the method that subclasses override, over whatever state it shares with others;
  -- `sleep ms` is the wait of `asyncio.sleep`.
  module _ (self : Consumer) (handle : Value → Exec S.State Value)
      (sleep : ℕ → Exec S.State Unit) where
    unfoldable pub commit : Exec World Unit
    commit = if self.has_consumer then on_broker B.commit else pure tt

    abbrev pub original_value : ConsumerRecord K → Value
    original_value r = elim (has_bytes K r.value) [
      | none ↦ null
      | some b ↦ text (K.decode_replace b)
    ]

    abbrev pub dlq_payload : ConsumerRecord K → String → Value
    dlq_payload r error = dict (
        field "original_topic" (text r.topic) (
          field "original_offset" (int r.offset) (
            field "original_partition" (int r.partition)
              (field "original_value" (original_value r) (field "error" (text error) empty)))))

    unfoldable pub send_to_dlq : ConsumerRecord K → String → Exec World Unit
    send_to_dlq r error =
        if self.has_dlq_producer
        then elim (non_empty_text self.dlq_topic) [
          | none ↦ pure tt
          | some topic ↦ on_broker (B.send_and_wait topic (dlq_payload r error) r.key)
        ]
        else pure tt

    -- a failed `mark_completed` is logged and counted, and the offset is committed all the same
    unfoldable pub store_result : ConsumerRecord K → Option String → Value → Exec World Unit
    store_result r none result = pure tt
    store_result r (some id) result =
        try_except (timed "mark_completed" (S.mark_completed id result))
          (λ exc. measure (record_error r.topic (exn_name exc))) (λ _. pure tt)

    unfoldable pub complete : ConsumerRecord K → Option String → Value → Exec World Unit
    complete r id result = do
      store_result r (non_empty_text id) result
      commit
      measure (record_processed r.topic)

    abbrev pub error_text : Option Exn → String
    error_text none = "None"
    error_text (some e) = exn_message e

    -- what follows the loop
    unfoldable pub give_up : ConsumerRecord K → Option Exn → Exec World Unit
    give_up r last_exc = do
      measure (record_dlq r.topic)
      send_to_dlq r (error_text last_exc)
      commit

    unfoldable pub mark : Option String → Exn → ℕ → Exec World Unit
    mark none exc attempts = pure tt
    mark (some id) exc attempts = timed "mark_failed" (S.mark_failed id (exn_message exc) attempts)

    -- A lost claim breaks out of the loop.
    unfoldable pub reclaim :
        ConsumerRecord K → Option String → Exn → Exec World Unit → Exec World Unit
    reclaim r none exc next = next
    reclaim r (some id) exc next = do
      reclaimed ← timed "claim" (S.claim id)
      if reclaimed then next else give_up r (some exc)

    unfoldable pub back_off :
        ConsumerRecord K → Option String → ℕ → Exn → Exec World Unit → Exec World Unit
    back_off r id attempts exc next =
        if ltb attempts self.config.max_retries
        then on_store (sleep (self.config.retry_backoff_ms * attempts))
          >> (measure (record_retry r.topic) >> reclaim r id exc next)
        else next

    -- the `except` branch; `next` is the loop from `continue` on
    unfoldable pub failed_attempt :
        ConsumerRecord K → Option String → ℕ → Exn → Exec World Unit → Exec World Unit
    failed_attempt r id attempts exc next = do
      measure (record_error r.topic (exn_name exc))
      mark (non_empty_text id) exc attempts
      back_off r (non_empty_text id) attempts exc next

    -- The `while` loop, on fuel: a round has a smaller `max_retries + 1 - attempts`.
    unfoldable pub attempt_loop :
        ℕ → ConsumerRecord K → Option String → Value → ℕ → Option Exn → Exec World Unit
    attempt_loop zero r id payload attempts last_exc w = give_up r last_exc w
    attempt_loop (suc fuel) r id payload attempts last_exc w =
        elim (leb attempts self.config.max_retries) [
          | false ↦ give_up r last_exc w
          | true ↦
              try_except (on_store (handle payload))
                (λ exc.
                  failed_attempt r id attempts exc
                    (attempt_loop fuel r id payload (attempts + 1) (some exc)))
                (λ result. complete r id result) w
        ]

    -- except (json.JSONDecodeError, UnicodeDecodeError)
    abbrev pub is_decode_error : Exn → Bool
    is_decode_error (exception name m) = name == "JSONDecodeError" || name == "UnicodeDecodeError"
    is_decode_error (base_exception name m) = false

    unfoldable pub payload_of : Option K.Bytes → Result Value
    payload_of none = ok (dict empty)
    payload_of (some b) = elim (K.loads b) [
      | ok payload ↦ ok payload
      | raised e ↦
          if is_decode_error e then ok (dict (field "raw" (K.as_value b) empty)) else raised e
    ]

    unfoldable pub execute_and_commit : ConsumerRecord K → Option String → Exec World Unit
    execute_and_commit r id = do
      payload ← λ w. (payload_of (has_bytes K r.value), w)
      attempt_loop (self.config.max_retries + 1) r id payload 1 none

    -- `existing is not None and existing.status == StatusValue.PROCESSING`
    abbrev pub in_flight : Option ProcessingStatus → Bool
    in_flight none = false
    in_flight (some q) = is_processing q.status

    abbrev pub skip_counter : ConsumerRecord K → Option ProcessingStatus → Metrics → Metrics
    skip_counter r existing =
        if in_flight existing then record_claim_lost r.topic else record_duplicate r.topic

    unfoldable pub skip : ConsumerRecord K → String → Exec World Unit
    skip r id = do
      existing ← timed "get_status" (S.get_status id)
      measure (skip_counter r existing)
      commit

    -- `with self._metrics.measure_processing(record.topic)`
    unfoldable pub process_claimed : ConsumerRecord K → String → Exec World Unit
    process_claimed r id =
        measure (rise r.topic) >> finally (execute_and_commit r (some id)) (fall r.topic)

    unfoldable pub process_with : ConsumerRecord K → Option String → Exec World Unit
    process_with r none = measure (record_no_message_id r.topic) >> execute_and_commit r none
    process_with r (some id) = do
      claimed ← timed "claim" (S.claim id)
      if claimed then process_claimed r id else skip r id

    unfoldable pub process_record : ConsumerRecord K → Exec World Unit
    process_record r = do id ← λ w. (extract_message_id K r, w); process_with r id

    -- Over what the Kafka client delivers.
    unfoldable pub run_loop : List (Delivery K) → Exec World Unit
    run_loop [] = pure tt
    run_loop (raised e ∷ rest) = raise e
    run_loop (ok (running, r) ∷ rest) =
        let later = run_loop rest in if running then process_record r >> later else pure tt

    unfoldable pub run : List (Delivery K) → Exec World Unit
    run records =
        if self.has_consumer
        then run_loop records
        else raise (exception "RuntimeError" "Call start() before run()")
