-- ===== src/Consumer/Lifecycle.antt =====
-- src/consumer/base.py, the interface of a consumer, and `__init__`, `start` and `stop` of
-- src/consumer/dedup_consumer.py with its mutable fields.
pub mod Laws
use message_deduplication_id.Prelude.{
  String, Bool, true, false, not, Option, none, some, List, ◌==◌, if◌then◌else◌,
}
use message_deduplication_id.Prelude.Exec.{Exec, Result, pure, ◌>>=◌, ◌>>◌}
use message_deduplication_id.Dedup.{Value, null, DeduplicationConfig, default_config}
use message_deduplication_id.Settings.{Settings, or_setting}
use message_deduplication_id.Consumer.Process.{Consumer}

-- The abstract methods, over a state that the consumers of a process share.
pub record BaseConsumer (W : Type 0) : Type 0 where
  pub start : Exec W Unit
  pub stop : Exec W Unit
  pub run : Exec W Unit
  pub handle : Value → Exec W Value

-- The clients of a consumer: the construction, start and stop of the Kafka consumer and of the DLQ
-- producer, and `connect` and `close` of the store. A store may have no `connect`.
pub record Clients (E : Type 0) : Type 0 where
  pub new_consumer : (topics : List String) (bootstrap group_id : String) → Exec E Unit
  pub start_consumer : Exec E Unit
  pub stop_consumer : Exec E Unit
  pub new_producer : (bootstrap : String) → Exec E Unit
  pub start_producer : Exec E Unit
  pub stop_producer : Exec E Unit
  pub connect : Option (Exec E Unit)
  pub close : Exec E Unit

-- `self`: what `Consumer` has, with what the Kafka clients are made of and the flag `_running`.
pub record DedupConsumer : Type 0 where
  pub topics : List String
  pub bootstrap : String
  pub group_id : String
  pub fields : Consumer
  pub running : Bool

-- `config or DeduplicationConfig()`
abbrev pub or_config : Option DeduplicationConfig → DeduplicationConfig
or_config none = default_config
or_config (some c) = c

-- `__init__`
unfoldable pub new :
    Settings
    → (topics : List String) (group_id bootstrap_servers dlq_topic : Option String)
    → Option DeduplicationConfig
    → DedupConsumer
new settings topics group_id bootstrap_servers dlq_topic config = record {
  topics = topics;
  bootstrap = or_setting bootstrap_servers settings.kafka_bootstrap_servers;
  group_id = or_setting group_id settings.kafka_group_id;
  fields = record {
    dlq_topic = dlq_topic;
    config = or_config config;
    has_consumer = false;
    has_dlq_producer = false;
  };
  running = false;
}

-- the method that subclasses override
unfoldable pub handle : {S : Type 0} → Value → Exec S Value
handle message = pure null

module _ {E : Type 0} (X : Clients E) where
  abbrev pub Live : Type 0
  Live = DedupConsumer × E

  -- self._… = …
  abbrev pub assign : (DedupConsumer → DedupConsumer) → Exec Live Unit
  assign f (self, env) = pure tt (f self, env)

  abbrev pub call : Exec E Unit → Exec Live Unit
  call m (self, env) = let (r, env') = m env in (r, (self, env'))

  -- a call in an `if` on the fields
  abbrev pub call_if : (DedupConsumer → Bool) → Exec Live Unit → Exec Live Unit
  call_if b m (self, env) = if b self then m (self, env) else pure tt (self, env)

  abbrev pub with_consumer : DedupConsumer → DedupConsumer
  with_consumer self = record self { fields = record self.fields { has_consumer = true } }

  abbrev pub with_producer : DedupConsumer → DedupConsumer
  with_producer self = record self { fields = record self.fields { has_dlq_producer = true } }

  abbrev pub set_running : Bool → DedupConsumer → DedupConsumer
  set_running b self = record self { running = b }

  -- `if self._dlq_topic:`
  abbrev pub wants_dlq : DedupConsumer → Bool
  wants_dlq self = elim self.fields.dlq_topic [ none ↦ false | some t ↦ not (t == "") ]

  abbrev pub connect_store : Exec Live Unit
  connect_store = elim X.connect [ none ↦ pure tt | some m ↦ call m ]

  abbrev pub create_consumer : Exec Live Unit
  create_consumer (self, env) =
      call (X.new_consumer self.topics self.bootstrap self.group_id) (self, env)

  abbrev pub create_producer : Exec Live Unit
  create_producer (self, env) = call (X.new_producer self.bootstrap) (self, env)

  unfoldable pub start : Exec Live Unit
  start = do
    create_consumer
    assign with_consumer
    call X.start_consumer
    call_if wants_dlq (create_producer >> (assign with_producer >> call X.start_producer))
    connect_store
    assign (set_running true)

  unfoldable pub stop : Exec Live Unit
  stop = do
    assign (set_running false)
    call_if (λ self. self.fields.has_consumer) (call X.stop_consumer)
    call_if (λ self. self.fields.has_dlq_producer) (call X.stop_producer)
    call X.close
