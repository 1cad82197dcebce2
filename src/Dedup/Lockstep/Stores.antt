-- ===== src/Dedup/Lockstep/Stores.antt =====
-- The in-memory store and the Redis store under the same calls.
use mathlib.Core.Option
use message_deduplication_id.Prelude.Dict
use message_deduplication_id.Prelude.Dict.{get-put, get-remove}
use message_deduplication_id.Dedup.Memory
use message_deduplication_id.Dedup.Redis
use message_deduplication_id.Dedup.Redis.{
  lua_claim, lua_update_status, first_record, re_claimed, update_record,
}
use message_deduplication_id.Dedup.Lockstep.{Lockstep}
