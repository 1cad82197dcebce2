-- ===== src/Consumer/Main/Fleet.antt =====
-- The three consumers of src/consumer/__main__.py, over clients that share what is outside of them.
use message_deduplication_id.Prelude.{
  ◌≡◌, refl, Bool, true, false, none, some, String, List, [], ◌∷◌, string_discrete,
}
use message_deduplication_id.Prelude.Exec.{Exec, ok}
use message_deduplication_id.Dedup.{Value, DeduplicationConfig}
use message_deduplication_id.Consumer.Handlers.{
  Handler, orders, payments, shipments, topics, dlq_topic, started, handle,
}
use message_deduplication_id.Settings.{Settings, dedup_config}
use message_deduplication_id.Consumer.Lifecycle.{
  BaseConsumer, Clients, DedupConsumer, new, start, stop, wants_dlq,
}
use message_deduplication_id.Consumer.Lifecycle.Laws.{
  start-running, start_keeps_running, stop-running, start-fields,
}
use message_deduplication_id.Consumer.Main.Laws.{Flags}

pub record Fleet (E : Type 0) : Type 0 where
  pub order_handler : DedupConsumer
  pub payment_handler : DedupConsumer
  pub shipment_handler : DedupConsumer
  pub env : E

-- (OrderHandler, PaymentHandler, ShipmentHandler)
abbrev pub handlers : List Handler
handlers = orders ∷ payments ∷ shipments ∷ []

-- handler_cls(store=…, config=config), with the `__init__` of the handler
unfoldable pub built : Settings → Handler → DeduplicationConfig → DedupConsumer
unfolding new
built settings h config = new settings (topics h) none none (some (dlq_topic h)) (some config)

module _ {E : Type 0} where
  unfoldable pub fleet : Settings → E → Fleet E
  fleet settings env = record {
    order_handler = built settings orders (dedup_config settings);
    payment_handler = built settings payments (dedup_config settings);
    shipment_handler = built settings shipments (dedup_config settings);
    env = env;
  }

  abbrev pub member : Handler → Fleet E → DedupConsumer
  member orders w = w.order_handler
  member payments w = w.payment_handler
  member shipments w = w.shipment_handler

  abbrev pub with_member : Handler → DedupConsumer × E → Fleet E → Fleet E
  with_member orders (self, env) w = record w { order_handler = self; env = env }
  with_member payments (self, env) w = record w { payment_handler = self; env = env }
  with_member shipments (self, env) w = record w { shipment_handler = self; env = env }

  abbrev pub on_member : {A : Type 0} → Handler → Exec (DedupConsumer × E) A → Exec (Fleet E) A
  on_member h m w = let (r, live) = m (member h w, w.env) in (r, with_member h live w)

  abbrev pub running : Handler → Fleet E → Bool
  running h w = (member h w).running

  -- `run` is the method of the consumer, whose steps the event loop interleaves.
  module _ (X : Handler → Clients E) (run : Handler → Exec (Fleet E) Unit)
      (type_name : Value → String) where
    abbrev pub consumer : Handler → BaseConsumer (Fleet E)
    consumer h = record {
      start = on_member h (start (X h));
      stop = on_member h (stop (X h));
      run = run h;
      handle = handle type_name h;
    }

    consumer-starts :
        (i : Handler) (w : Fleet E)
        → ((consumer i).start w).0 ≡ ok tt
        → running i ((consumer i).start w).1 ≡ true
    consumer-starts orders w h = start-running (X orders) w.order_handler w.env h
    consumer-starts payments w h = start-running (X payments) w.payment_handler w.env h
    consumer-starts shipments w h = start-running (X shipments) w.shipment_handler w.env h

    consumer-stays_up :
        (i j : Handler) (w : Fleet E)
        → running j w ≡ true
        → running j ((consumer i).start w).1 ≡ true
    consumer-stays_up orders orders w h = start_keeps_running (X orders) w.order_handler w.env h
    consumer-stays_up payments payments w h =
        start_keeps_running (X payments) w.payment_handler w.env h
    consumer-stays_up shipments shipments w h =
        start_keeps_running (X shipments) w.shipment_handler w.env h
    consumer-stays_up orders payments w h = h
    consumer-stays_up orders shipments w h = h
    consumer-stays_up payments orders w h = h
    consumer-stays_up payments shipments w h = h
    consumer-stays_up shipments orders w h = h
    consumer-stays_up shipments payments w h = h

    consumer-stops : (i : Handler) (w : Fleet E) → running i ((consumer i).stop w).1 ≡ false
    consumer-stops orders w = stop-running (X orders) w.order_handler w.env
    consumer-stops payments w = stop-running (X payments) w.payment_handler w.env
    consumer-stops shipments w = stop-running (X shipments) w.shipment_handler w.env

    consumer-stays_down :
        (i j : Handler) (w : Fleet E)
        → running j w ≡ false
        → running j ((consumer i).stop w).1 ≡ false
    consumer-stays_down orders orders w h = consumer-stops orders w
    consumer-stays_down payments payments w h = consumer-stops payments w
    consumer-stays_down shipments shipments w h = consumer-stops shipments w
    consumer-stays_down orders payments w h = h
    consumer-stays_down orders shipments w h = h
    consumer-stays_down payments orders w h = h
    consumer-stays_down payments shipments w h = h
    consumer-stays_down shipments orders w h = h
    consumer-stays_down shipments payments w h = h

    pub consumer-Flags : Flags consumer running
    consumer-Flags = record {
      starts = consumer-starts;
      stays_up = consumer-stays_up;
      stops = consumer-stops;
      stays_down = consumer-stays_down;
    }

  pub built-wants_dlq :
      (X : Clients E) (settings : Settings) (h : Handler) (config : DeduplicationConfig)
      → wants_dlq X (built settings h config) ≡ true
  unfolding built new dlq_topic string_discrete
  built-wants_dlq X settings orders config = refl
  built-wants_dlq X settings payments config = refl
  built-wants_dlq X settings shipments config = refl

  -- `start` turns a handler that was built into the one that its runs are about.
  pub start-started :
      (X : Clients E) (settings : Settings) (h : Handler) (config : DeduplicationConfig) (env : E)
      → (start X (built settings h config, env)).0 ≡ ok tt
      → (start X (built settings h config, env)).1.0.fields ≡ started h config
  unfolding built new started
  start-started X settings h config env e =
      start-fields X (built settings h config) env e (built-wants_dlq X settings h config)
