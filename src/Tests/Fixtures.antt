-- ===== src/Tests/Fixtures.antt =====
-- A configuration, stores, a codec and a broker that the tests share.
use message_deduplication_id.Prelude.{ℕ, ◌+◌, String, true, none, some, [], not, ◌==◌}
use message_deduplication_id.Prelude.Exec.{exception, base_exception, Exec, ok, raised}
use message_deduplication_id.Dedup.{
  Value, text, dict, field, empty, DeduplicationConfig, default_config,
}
use message_deduplication_id.Dedup.Memory
use message_deduplication_id.Dedup.Memory.{MemoryStore}
use message_deduplication_id.Dedup.Redis.Keyspace.{Keyspace}
use message_deduplication_id.Dedup.Redis.Protocol.{fine, unanswered}
use message_deduplication_id.Consumer.Message.{Codec, ConsumerRecord}
use message_deduplication_id.Consumer.Process.{Broker, Consumer}

abbrev pub config : DeduplicationConfig
config = default_config

unfoldable pub start : MemoryStore
unfolding Memory.init
start = Memory.init config 1000

abbrev pub redis_start : Keyspace
redis_start = record { values = []; expiries = []; clock = 5_000_000; link = fine }

-- The server runs what it is sent, and its answers do not come back.
abbrev pub silent_start : Keyspace
silent_start = record redis_start { link = unanswered (exception "TimeoutError" "timed out") }

-- Its byte strings are texts, and its documents are the ids alone.
abbrev pub codec : Codec
codec = record {
  Bytes = String;
  non_empty = λ b. not (b == "");
  decode = ok;
  decode_replace = λ b. b;
  loads = λ b. ok (dict (field "message_id" (text b) empty));
  as_value = text;
  str = λ v. elim v [ text t ↦ t | _ ↦ "?" ];
}

-- It counts the commits and the messages that were sent.
abbrev pub broker : Broker codec
broker = record {
  State = ℕ × ℕ;
  commit = λ (c, s). (ok tt, (c + 1, s));
  send_and_wait = λ t v k (c, s). (ok tt, (c, s + 1));
}

abbrev pub consumer : Consumer
consumer = record {
  dlq_topic = some "orders.dlq";
  config = config;
  has_consumer = true;
  has_dlq_producer = true;
}

abbrev pub order : ConsumerRecord codec
order = record {
  topic = "orders";
  partition = 0;
  offset = 7;
  key = none;
  value = some "order-1";
  headers = [];
}

-- A handler that takes a microsecond; one that fails; one that is cancelled.
abbrev pub works : {A : Type 0} → A → Exec MemoryStore Value
works a m = (ok (text "done"), record m { clock = m.clock + 1 })

abbrev pub fails : {A : Type 0} → A → Exec MemoryStore Value
fails a m = (raised (exception "ValueError" "boom"), record m { clock = m.clock + 1 })

abbrev pub is_cancelled : {A : Type 0} → A → Exec MemoryStore Value
is_cancelled a m = (raised (base_exception "CancelledError" ""), m)

abbrev pub sleeps : ℕ → Exec MemoryStore Unit
sleeps ms m = (ok tt, m)
