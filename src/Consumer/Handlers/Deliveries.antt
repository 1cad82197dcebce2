-- ===== src/Consumer/Handlers/Deliveries.antt =====
-- What becomes of a record that one of the handlers consumes.
use message_deduplication_id.Prelude.{
  ℕ, ◌≤◌, String, ◌≡◌, ◌≢◌, refl, sym, ap, Bool, true, false, some,
}
use message_deduplication_id.Prelude.Exec.{Exn, Exec, Result, ok, raised}
use message_deduplication_id.Dedup.{
  Value, int, text, dict, Fields, field, empty, DeduplicationConfig,
}
use message_deduplication_id.Dedup.Lifecycle.{done, broken, claimable}
use message_deduplication_id.Dedup.Store.{Store, Contract}
use message_deduplication_id.Idempotency.Guard.Laws.{Leaves}
use message_deduplication_id.Metrics.{fall, record_duplicate, observe_store_op}
use message_deduplication_id.Consumer.Message.{Codec, ConsumerRecord, extract_message_id}
use message_deduplication_id.Consumer.Process.{Broker, Consumer, World, commit, finally, give_up}
use message_deduplication_id.Consumer.Process.Effects.{process, payload, process-process}
use message_deduplication_id.Consumer.Process.Exhaustion.{Fails, Tries}
use message_deduplication_id.Consumer.Process.GiveUp.{process-give_up}
use message_deduplication_id.Consumer.Handlers.{
  Handler, orders, payments, shipments, get_default, started, reply, no_get, handle,
}

abbrev pub is_object : Value → Bool
is_object (dict fs) = true
is_object _ = false

-- The documents that the three handlers promise for a message: the id that it names, or "unknown", and
-- what was done.
abbrev pub promised : Handler → Fields → Value
promised orders fs = dict (
    field "order_id" (get_default "order_id" (text "unknown") fs)
      (field "status" (text "created") empty))
promised payments fs = dict (
    field "payment_id" (get_default "payment_id" (text "unknown") fs)
      (field "charged" (get_default "amount" (int 0) fs) (field "status" (text "success") empty)))
promised shipments fs = dict (
    field "shipment_id" (get_default "shipment_id" (text "unknown") fs) (
      field "tracking_number" (text "TRACK-STUB")
        (field "address" (get_default "address" (dict empty) fs) empty)))

reply-promised : (h : Handler) (fs : Fields) → reply h fs ≡ promised h fs
unfolding reply
reply-promised orders fs = refl
reply-promised payments fs = refl
reply-promised shipments fs = refl

module _ (S : Store) (C : Contract S) (K : Codec) (B : Broker K) (type_name : Value → String)
    (sleep : ℕ → Exec S.State Unit) (h : Handler) (config : DeduplicationConfig)
    (some_tries : 1 ≤ config.max_retries) (r : ConsumerRecord K) (id : String)
    (named : extract_message_id K r ≡ ok (some id)) (ne : id ≢ "") where
  abbrev pub self : Consumer
  self = started h config

  abbrev pub runs : World S K B → Result (Unit {0}) × World S K B
  runs = process S C K B self (handle type_name h) sleep r id named

  abbrev pub body : Result Value
  body = payload S C K B self (handle type_name h) sleep r id named

  unmoved :
      (w : World S K B) → C.Up w.store → Leaves S C id (S.claim id w.store).1 (S.claim id w.store).1
  unmoved w up = record { up = (C.claim_keeps id w.store up).0; rules = refl; view = refl }

  handles : (fs : Fields) (s : S.State) → handle type_name h (dict fs) s ≡ (ok (promised h fs), s)
  unfolding handle
  handles fs s = rw (sym (reply-promised h fs)) refl

  -- A record that a handler consumes, whose body is a JSON object and whose message can be claimed: the
  -- document that this handler promises for it is stored as its result. A second delivery of the
  -- record, at any time, with nothing done to its record in the store in between, does not run the
  -- handler: the claim is refused, and the record is counted as a duplicate and committed. The
  -- document is one that the store can keep.
  pub handler_replies :
      (fs : Fields) (w w' : World S K B)
      → body ≡ ok (dict fs)
      → C.Storable (promised h fs)
      → C.Up w.store
      → claimable (C.rules w.store) (C.now w.store) (C.view w.store id) ≡ true
      → Leaves S C id (runs w).1.store w'.store
      → (C.view (runs w).1.store id ≡ some (done (promised h fs)))
        × (runs w'
            ≡ commit S K B self (handle type_name h) sleep (record w' {
              store = (S.claim id w'.store).1;
              metrics =
                  record_duplicate r.topic
                    (observe_store_op "get_status" (observe_store_op "claim" w'.metrics));
            }))
  unfolding started
  handler_replies fs w w' parsed can up free untouched =
      let (stored, finished, again, still) =
        process-process S C K B self (handle type_name h) sleep r id named (dict fs) parsed
          some_tries w (S.claim id w.store).1 up free (promised h fs)
          (handles fs (S.claim id w.store).1) ne (unmoved w up) can w' untouched in
      (finished, again)

  same_raised : (e x : Exn) (r : Result Value) → r ≡ raised e → r ≡ raised x → e ≡ x
  same_raised e x r h k = cc

  refuses :
      (p : Value) (s : S.State)
      → is_object p ≡ false
      → handle type_name h p s ≡ (raised (no_get type_name p), s)
  unfolding handle
  refuses (dict fs) s e = absurd (cc)
  refuses _ s e = refl

  -- The waits of `asyncio.sleep` end, and nobody touches this message in them.
  pub record Waits : Type 0 where
    pub at :
        (ms : ℕ) (s : S.State)
        → C.Up s
        → (t : S.State) × (sleep ms s ≡ (ok tt, t)) × Leaves S C id s t

  always_refuses :
      (p : Value)
      → is_object p ≡ false
      → Waits
      → Fails S C K B self (handle type_name h) sleep r id p
  unfolding no_get
  always_refuses p e waits = record {
    attempt = λ s up.
        ("AttributeError", _, s, refuses p s e, record { up = up; rules = refl; view = refl });
    wait = waits.at;
  }

  -- A record whose body is JSON but no object, and whose message can be claimed: the handler fails
  -- on it at every attempt, and after `max_retries` attempts the record is FAILED and the message is
  -- given up, where the waits leave the message alone and the store has the consumer's limits.
  pub handler_abandons :
      (p : Value) (w : World S K B)
      → body ≡ ok p
      → is_object p ≡ false
      → Waits
      → C.Up w.store
      → Tries S C K B self (handle type_name h) sleep r id p w.store
      → claimable (C.rules w.store) (C.now w.store) (C.view w.store id) ≡ true
      → (last : World S K B) × (last.broker ≡ w.broker)
        × (C.view last.store id ≡ some (broken config.max_retries))
        × (runs w
            ≡ finally S K B
                (give_up S K B self (handle type_name h) sleep r (some (no_get type_name p)))
                (fall r.topic)
                last)
  unfolding started
  handler_abandons p w parsed no_object waits up limits free =
      let (e, entry, after, raises, last, same, marked, spent, ends) =
        process-give_up S C K B self (handle type_name h) sleep r id p named ne parsed some_tries
          (always_refuses p no_object waits) w up limits free in
      let known =
        same_raised e (no_get type_name p) (handle type_name h p entry).0 (ap (λ z. z.0) raises)
          (ap (λ z. z.0) (refuses p entry no_object)) in
      (last, same, spent, rw (sym known) ends)
