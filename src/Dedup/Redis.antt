-- ===== src/Dedup/Redis.antt =====
-- src/dedup/redis_store.py: the two Lua scripts and the Python methods that send them.
pub mod Protocol
pub mod Laws
pub mod Clean
pub mod Refines
pub mod Outcomes
pub mod Calls
pub mod Deadlines
pub mod Readback
pub mod Facts
pub mod Shape
pub mod Expiry
pub mod Lost
pub mod Keyspace
use message_deduplication_id.Prelude.{
  ℕ, ◌+◌, ◌*◌, ◌/◌, ◌≡◌, String, ◌<>◌, Bool, true, false, ◌&&◌, ◌||◌, Option, none, some, ltb, leb,
  ◌==◌, if◌then◌else◌,
}
use mathlib.Core.Option
use message_deduplication_id.Prelude.Exec.{Exec, Result, ok, raised, pure, ◌>>=◌, ◌>>◌}
use message_deduplication_id.Dedup.{
  Value, null, StatusValue, ProcessingStatus, processing, completed, failed, is_processing,
  is_failed_value, DeduplicationConfig,
}
use Protocol.{fine, unsent, unanswered, Server, LuaRecord}

-- What `_LUA_UPDATE_STATUS` returns: -1, 0 or 1.
pub data Reply : Type 0 where
  not_found refused updated : Reply

unfoldable pub redis_key : String → String
redis_key id = "dedup:" <> id

abbrev or_one : Option ℕ → ℕ
or_one none = 1
or_one (some n) = n

abbrev lease_over : ℕ → Option ℕ → Bool
lease_over now none = false
lease_over now (some until) = leb until now

-- `result is None`
abbrev is_none : Value → Bool
is_none null = true
is_none _ = false

module _ (R : Server) (config : DeduplicationConfig) where
  -- local now_ms = tonumber(t[1]) * 1000 + math.floor(tonumber(t[2]) / 1000)
  unfoldable pub now_ms : R.State → ℕ
  now_ms s = let (seconds, micros) = R.time s in seconds * 1000 + micros / 1000

  pub first_record : String → ℕ → ℕ → LuaRecord
  first_record id now_iso until = record {
    message_id = id;
    status = processing;
    attempts = some 1;
    result = none;
    error = none;
    lease_until_ms = some until;
    created_at = now_iso;
    updated_at = now_iso;
  }

  pub re_claimed : ℕ → ℕ → LuaRecord → LuaRecord
  re_claimed now_iso until rec = record rec {
    status = processing;
    attempts = some (or_one rec.attempts + 1);
    error = none;
    updated_at = now_iso;
    lease_until_ms = some until;
  }

  abbrev script_retryable : ℕ → Bool → LuaRecord → Bool
  script_retryable max_retries retry_failed rec =
      is_failed_value rec.status && retry_failed && ltb (or_one rec.attempts) max_retries

  abbrev script_orphaned : ℕ → LuaRecord → Bool
  script_orphaned now rec = is_processing rec.status && lease_over now rec.lease_until_ms

  -- _LUA_CLAIM
  unfoldable pub lua_claim :
      (key message_id : String) (ttl_ms lease_ms max_retries : ℕ) (retry_failed : Bool)
      (now_iso : ℕ)
      → R.State
      → Bool × R.State
  unfolding first_record re_claimed
  lua_claim key message_id ttl_ms lease_ms max_retries retry_failed now_iso s =
      let now = now_ms s in
      elim (R.get key s) [
        | none ↦ (
          true,
          R.set_px key (R.encode (first_record message_id now_iso (now + lease_ms))) ttl_ms s,
        )
        | some raw ↦
            let rec = R.decode raw in
            if script_retryable max_retries retry_failed rec || script_orphaned now rec
            then (true, R.set_keepttl key (R.encode (re_claimed now_iso (now + lease_ms) rec)) s)
            else (false, s)
      ]

  -- the assignments of _LUA_UPDATE_STATUS; `none` and the empty texts stand for ''
  pub update_record : StatusValue → ℕ → String → String → Option ℕ → LuaRecord → LuaRecord
  update_record status now_iso result_json error attempts rec = record rec {
    status = status;
    updated_at = now_iso;
    result = if result_json == "" then rec.result else some (R.decode_value result_json);
    error = if error == "" then rec.error else some error;
    attempts = elim attempts [ none ↦ rec.attempts | some n ↦ some n ];
    lease_until_ms = none;
  }

  -- _LUA_UPDATE_STATUS
  unfoldable pub lua_update_status :
      (key : String) (status : StatusValue) (now_iso : ℕ) (result_json error : String)
      (attempts : Option ℕ)
      → R.State
      → Reply × R.State
  unfolding update_record
  lua_update_status key status now_iso result_json error attempts s = elim (R.get key s) [
    | none ↦ (not_found, s)
    | some raw ↦
        let rec = R.decode raw in
        if is_processing rec.status
        then (
          updated,
          R.set_keepttl key (R.encode (update_record status now_iso result_json error attempts rec))
              s,
        )
        else (refused, s)
  ]

  -- One command of the client.
  command : {A : Type 0} → (R.State → A × R.State) → Exec R.State A
  command f s = elim (R.fault s) [
    | fine ↦ let (a, s') = f s in (ok a, s')
    | unsent e ↦ (raised e, s)
    | unanswered e ↦ (raised e, (f s).1)
  ]

  -- `ping`
  unfoldable pub connect : Exec R.State Unit
  unfolding command
  connect = command λ s. (tt, s)

  unfoldable pub claim : String → Exec R.State Bool
  unfolding command
  claim id = command λ s.
      lua_claim (redis_key id) id (config.ttl_seconds * 1000)
        (config.processing_timeout_seconds * 1000) config.max_retries config.retry_failed
        (R.client_clock s) s

  unfoldable pub is_duplicate : String → Exec R.State Bool
  unfolding command
  is_duplicate id =
      command λ s. elim (R.get (redis_key id) s) [ none ↦ (false, s) | some _ ↦ (true, s) ]

  run_update_script : String → StatusValue → String → String → Option ℕ → Exec R.State Reply
  unfolding command
  run_update_script id status result_json error attempts =
      command
        λ s. lua_update_status (redis_key id) status (R.client_clock s) result_json error attempts s

  -- `_check_script_return` only logs.
  check_script_return : Reply → Exec R.State Unit
  check_script_return _ = pure tt

  -- json.dumps(result) if result is not None else ""
  result_text : Value → Exec R.State String
  result_text v s = if is_none v then (ok "", s) else (R.dumps v, s)

  unfoldable pub mark_completed : String → Value → Exec R.State Unit
  unfolding run_update_script check_script_return result_text
  mark_completed id result = do
    result_json ← result_text result
    ret ← run_update_script id completed result_json "" none
    check_script_return ret

  unfoldable pub mark_failed : String → String → ℕ → Exec R.State Unit
  unfolding run_update_script check_script_return
  mark_failed id error attempts = do
    ret ← run_update_script id failed "" error (some attempts)
    check_script_return ret

  abbrev or_null : Option Value → Value
  or_null none = null
  or_null (some v) = v

  -- ProcessingStatus(**data): a missing field takes its default, and the lease becomes a date.
  abbrev pub to_status : LuaRecord → ProcessingStatus
  to_status d = record {
    message_id = d.message_id;
    status = d.status;
    attempts = or_one d.attempts;
    result = or_null d.result;
    error = d.error;
    lease_expires_at = elim d.lease_until_ms [ none ↦ none | some ms ↦ some (ms * 1000) ];
    created_at = d.created_at;
    updated_at = d.updated_at;
  }

  unfoldable pub get_status : String → Exec R.State (Option ProcessingStatus)
  unfolding command
  get_status id = do
    found ← command (λ s. (R.get (redis_key id) s, s))
    elim found [ none ↦ pure none | some raw ↦ pure (some (to_status (R.loads raw))) ]

  unfoldable pub delete : String → Exec R.State Unit
  unfolding command
  delete id = command (λ s. (tt, R.del (redis_key id) s))

  unfoldable pub close : Exec R.State Unit
  unfolding command
  close = pure tt
