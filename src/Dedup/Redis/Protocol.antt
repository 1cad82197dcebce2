-- ===== src/Dedup/Redis/Protocol.antt =====
-- What the Redis store asks of the code that it calls: the server's commands, the two JSON codecs
-- (`cjson` in the scripts, `json` in Python) and the clocks. A script runs atomically on the server.
use message_deduplication_id.Prelude.{
  ℕ, ◌+◌, ◌*◌, ◌/◌, ◌<◌, String, ◌≡◌, ◌≢◌, Bool, true, Option, none, some, ◌==◌, if◌then◌else◌,
}
use message_deduplication_id.Prelude.Exec.{Exn, Result, ok}
use message_deduplication_id.Dedup.{Value, StatusValue}

-- The table that a record is in a script. A field that is `nil` is `none`, and is not encoded. The
-- dates are ISO texts there, and stand here as the instants that they denote.
pub record LuaRecord : Type 0 where
  pub message_id : String
  pub status : StatusValue
  pub attempts : Option ℕ
  pub result : Option Value
  pub error : Option String
  pub lease_until_ms : Option ℕ
  pub created_at : ℕ
  pub updated_at : ℕ

-- What becomes of a command: it is answered; it does not reach the server; or it runs there, and the
-- answer does not come back, as when the client's socket times out.
pub data Fault : Type 0 where
  fine : Fault
  unsent unanswered : Exn → Fault

pub record Server : Type 1 where
  pub State : Type 0
  pub Raw : Type 0
  pub fault : State → Fault
  -- TIME: seconds, and microseconds within the second
  pub time : State → ℕ × ℕ
  -- `datetime.now(UTC)` in the client
  pub client_clock : State → ℕ
  pub get : String → State → Option Raw
  -- SET key value PX ttl, SET key value KEEPTTL, DEL key
  pub set_px : String → Raw → ℕ → State → State
  pub set_keepttl : String → Raw → State → State
  pub del : String → State → State
  -- when a key expires, in milliseconds of the server's clock
  pub deadline : String → State → Option ℕ
  pub encode : LuaRecord → Raw
  pub decode : Raw → LuaRecord
  -- `json.loads` of the same text in Python
  pub loads : Raw → LuaRecord
  -- `json.dumps`, and `cjson.decode` of its text
  pub dumps : Value → Result String
  pub decode_value : String → Value
  -- The values that both codecs keep. cjson writes an empty array as an empty object, and a number of
  -- more than 14 digits is rounded. The times and the attempts of a record are below that.
  pub exact : Value → Bool

abbrev pub exact_result : Server → Option Value → Bool
exact_result R none = true
exact_result R (some v) = R.exact v

-- A write leaves the clocks and the connection as they were.
pub record Writes (R : Server) (s t : R.State) : Type 0 where
  pub fault : R.fault t ≡ R.fault s
  pub time : R.time t ≡ R.time s

pub record IsLawful (R : Server) : Type 0 where
  pub get-set_px :
      (k j : String) (v : R.Raw) (ttl : ℕ) (s : R.State)
      → 0 < ttl
      → R.get j (R.set_px k v ttl s) ≡ (if j == k then some v else R.get j s)
  pub get-set_keepttl :
      (k j : String) (v : R.Raw) (s : R.State)
      → R.get j (R.set_keepttl k v s) ≡ (if j == k then some v else R.get j s)
  pub get-del :
      (k j : String) (s : R.State) → R.get j (R.del k s) ≡ (if j == k then none else R.get j s)
  pub deadline-set_px :
      (k j : String) (v : R.Raw) (ttl : ℕ) (s : R.State)
      → 0 < ttl
      → R.deadline j (R.set_px k v ttl s) ≡ (
          if j == k then some ((R.time s).0 * 1000 + (R.time s).1 / 1000 + ttl) else R.deadline j s)
  pub deadline-set_keepttl :
      (k j : String) (v : R.Raw) (s : R.State) → R.deadline j (R.set_keepttl k v s) ≡ R.deadline j s
  pub set_px_writes :
      (k : String) (v : R.Raw) (ttl : ℕ) (s : R.State) → Writes R s (R.set_px k v ttl s)
  pub set_keepttl_writes : (k : String) (v : R.Raw) (s : R.State) → Writes R s (R.set_keepttl k v s)
  pub del_writes : (k : String) (s : R.State) → Writes R s (R.del k s)
  pub decode-encode : (r : LuaRecord) → exact_result R r.result ≡ true → R.decode (R.encode r) ≡ r
  pub decode-exact : (raw : R.Raw) → exact_result R (R.decode raw).result ≡ true
  pub decode_value-exact : (t : String) → R.exact (R.decode_value t) ≡ true
  pub loads-decode : (raw : R.Raw) → R.loads raw ≡ R.decode raw
  pub dumps-ne-empty : (v : Value) (t : String) → R.dumps v ≡ ok t → t ≢ ""
  pub decode_value-dumps :
      (v : Value) (t : String) → R.exact v ≡ true → R.dumps v ≡ ok t → R.decode_value t ≡ v
