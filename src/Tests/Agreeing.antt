-- ===== src/Tests/Agreeing.antt =====
-- The two stores side by side, and what Redis reads back, at concrete inputs.
use message_deduplication_id.Prelude.{
  List, ◌≡◌, inl, refl, true, none, some, [], ◌∷◌, string_discrete, arith,
}
use message_deduplication_id.Prelude.Dict
use message_deduplication_id.Prelude.Exec.{ok}
use message_deduplication_id.Dedup.{
  Value, text, null, ProcessingStatus, processing, completed, failed,
}
use message_deduplication_id.Dedup.Lifecycle.{running}
use message_deduplication_id.Dedup.Memory
use message_deduplication_id.Dedup.Memory.{MemoryStore}
use message_deduplication_id.Dedup.Redis.{redis_key, claim, mark_completed, get_status}
use message_deduplication_id.Dedup.Redis.Laws.{view}
use message_deduplication_id.Dedup.Redis.Keyspace.{Keyspace, keyspace, keyspace-IsLawful}
use message_deduplication_id.Dedup.Redis.Refines.{Up, claim-Keeps}
use message_deduplication_id.Dedup.Redis.Shape.{IsShaped, get_status-IsShaped}
use message_deduplication_id.Dedup.Redis.Readback.{as_completed, get_status-mark_completed}
use message_deduplication_id.Dedup.Redis
use mathlib.Core.Option
use message_deduplication_id.Dedup.Lockstep.{
  Answer, told, done_with, read, Lockstep, claims, completes,
}
use message_deduplication_id.Dedup.Redis.Calls
use message_deduplication_id.Dedup.Redis.Calls.{Run, after}
use message_deduplication_id.Dedup.Redis.Outcomes.{Up-Sound}
use message_deduplication_id.Dedup.Redis.Protocol.{fine}
use message_deduplication_id.Dedup.Redis.Expiry.{Passes, claim-expired}
use message_deduplication_id.Tests.Fixtures.{config, redis_start}

abbrev memory_start : MemoryStore
memory_start = record { config = config; table = []; clock = 5_000_000 }

answering : Up keyspace keyspace-IsLawful config redis_start
unfolding Dict.get
answering = record { answers = refl; ttl = omega arith; clean = λ id. tt }

abbrev memory_claimed : MemoryStore
memory_claimed = (Memory.claim "a" memory_start).1

abbrev redis_claimed : Keyspace
redis_claimed = (claim keyspace config "a" redis_start).1

abbrev memory_last : MemoryStore
memory_last = (Memory.mark_completed "a" (text "x") memory_claimed).1

abbrev redis_last : Keyspace
redis_last = (mark_completed keyspace config "a" (text "x") redis_claimed).1

-- What both stores read of the record.
abbrev read_there : Answer
read_there = read (
    ok (
      some (record {
        status = completed;
        attempts = 1;
        result = text "x";
        error = none;
        lease = none;
      })))

abbrev all_answers : List Answer
all_answers = read_there ∷ done_with (ok tt) ∷ told (ok true) ∷ []

abbrev held : ProcessingStatus
held = record {
  message_id = "a";
  status = processing;
  attempts = 1;
  result = null;
  error = none;
  lease_expires_at = some 305_000_000;
  created_at = 5_000_000;
  updated_at = 5_000_000;
}

get_status-mark_completed_example :
    (get_status keyspace config "a" redis_last).0
    ≡ ok (some (as_completed (text "x") 5_000_000 held))
unfolding message_deduplication_id.Dedup.Redis.Keyspace.dumps get_status claim
    message_deduplication_id.Dedup.Redis.lua_claim Dict.get
    message_deduplication_id.Dedup.Redis.Keyspace.set_px Dict.put string_discrete
    message_deduplication_id.Dedup.Redis.redis_key message_deduplication_id.Dedup.Redis.now_ms
get_status-mark_completed_example =
    get_status-mark_completed keyspace keyspace-IsLawful config "a" (text "x") held redis_claimed
      (claim-Keeps keyspace keyspace-IsLawful config "a" redis_start answering).0 ("tx", refl, refl)
      refl refl

-- A day later, with every record gone.
abbrev next_day : Keyspace
next_day = record { values = []; expiries = []; clock = 86_405_000_000; link = fine }

abbrev completed_there : Keyspace
completed_there =
    after keyspace keyspace-IsLawful config redis_claimed (Calls.completes "a" (text "x"))

day-Passes : Passes keyspace keyspace-IsLawful config completed_there next_day
unfolding Dict.get
day-Passes = record { answers = refl; gone = λ key d h l. refl; kept = λ key. inl refl }

claim-expired_example :
    ((claim keyspace config "a" next_day).0 ≡ ok true)
    × (view keyspace keyspace-IsLawful config (claim keyspace config "a" next_day).1 "a"
        ≡ some (running 1 (some 86_705_000_000)))
    × (mark_completed keyspace config "a" (text "x") next_day ≡ (ok tt, next_day))
unfolding Dict.get message_deduplication_id.Dedup.Redis.now_ms
    message_deduplication_id.Dedup.Redis.Keyspace.dumps
claim-expired_example =
    claim-expired keyspace keyspace-IsLawful config "a" (text "x") redis_start completed_there
      next_day answering refl (Run.calls Run.start (Calls.completes "a" (text "x"))) day-Passes
      (omega arith) ("tx", refl, refl)

abbrev failed_once : ProcessingStatus
failed_once = record {
  message_id = "a";
  status = failed;
  attempts = 1;
  result = null;
  error = some "late";
  lease_expires_at = none;
  created_at = 5_000_000;
  updated_at = 5_000_000;
}

abbrev failed_there : Keyspace
failed_there =
    after keyspace keyspace-IsLawful config
      (after keyspace keyspace-IsLawful config redis_start (Calls.claims "a"))
      (Calls.fails "a" "late" 1)

get_status-IsShaped_example : IsShaped failed_once
unfolding Dict.get message_deduplication_id.Dedup.Redis.Keyspace.set_px Dict.put string_discrete
    message_deduplication_id.Dedup.Redis.redis_key message_deduplication_id.Dedup.Redis.now_ms
    get_status claim message_deduplication_id.Dedup.Redis.lua_claim
    message_deduplication_id.Dedup.Redis.mark_failed
    message_deduplication_id.Dedup.Redis.lua_update_status
    message_deduplication_id.Dedup.Redis.Keyspace.set_keepttl
get_status-IsShaped_example =
    get_status-IsShaped keyspace keyspace-IsLawful config redis_start failed_there "a" failed_once
      (Up-Sound keyspace keyspace-IsLawful config redis_start answering) (λ id. tt)
      (Run.calls (Run.calls Run.start (Calls.claims "a")) (Calls.fails "a" "late" 1)) refl
