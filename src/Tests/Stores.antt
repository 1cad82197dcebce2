-- ===== src/Tests/Stores.antt =====
-- Runs of the stores, and the theorems on them at concrete inputs.
use message_deduplication_id.Prelude.{◌+◌, ◌≡◌, refl, true, some, arith, string_discrete}
use message_deduplication_id.Prelude.Dict
use message_deduplication_id.Prelude.Exec.{ok}
use message_deduplication_id.Dedup.{Value, null, text}
use message_deduplication_id.Dedup.Lifecycle.{running, done, broken, claimable, spec_claim}
use message_deduplication_id.Dedup.Memory
use message_deduplication_id.Dedup.Memory.{MemoryStore}
use message_deduplication_id.Dedup.Memory.Refines
use message_deduplication_id.Dedup.Memory.Refines.{memory, memory-Contract, claim-spec_claim}
use message_deduplication_id.Dedup.Memory.Overwrite.{mark_failed_reopens}
use message_deduplication_id.Dedup.Redis.{claim, mark_completed, mark_failed}
use message_deduplication_id.Dedup.Redis.Laws.{view}
use message_deduplication_id.Dedup.Redis.Keyspace.{
  Keyspace, keyspace, keyspace-IsLawful, dumps, decode_value,
}
use message_deduplication_id.Dedup.Redis.Refines.{Up, claim-Keeps, complete-Keeps, view-claim}
use message_deduplication_id.Dedup.Redis.Calls
use message_deduplication_id.Dedup.Redis.Deadlines.{run_first_claim}
use message_deduplication_id.Dedup.Redis.Calls.{Drift, Run, after, run-done}
use message_deduplication_id.Dedup.Redis.Outcomes.{Sound, Up-Sound}
use message_deduplication_id.Tests.Fixtures.{config, start, redis_start}

claimed : MemoryStore
claimed = (Memory.claim "a" start).1

completed_once : MemoryStore
completed_once = (Memory.mark_completed "a" (text "x") claimed).1

mark_failed_reopens_example :
    let late = (Memory.mark_failed "a" "timeout" 1 completed_once).1 in
    (Refines.view late "a" ≡ some (broken 1)) × ((Memory.claim "a" late).0 ≡ ok true)
unfolding Memory.claim Memory.mark_completed completed_once claimed start Memory.init Dict.get
    Dict.put string_discrete
mark_failed_reopens_example =
    mark_failed_reopens "a" "timeout" 1 (text "x") completed_once refl refl (omega arith)

redis-Up : Up keyspace keyspace-IsLawful config redis_start
unfolding Dict.get
redis-Up = record { answers = refl; ttl = omega arith; clean = λ id. tt }

redis_claimed : Keyspace
redis_claimed = (claim keyspace config "a" redis_start).1

view-claim_example :
    view keyspace keyspace-IsLawful config redis_claimed "a" ≡ some (running 1 (some 305_000_000))
unfolding redis_claimed claimable spec_claim string_discrete Dict.get
    message_deduplication_id.Dedup.Redis.now_ms
view-claim_example = view-claim keyspace keyspace-IsLawful config "a" "a" redis_start redis-Up

redis_claimed-Up : Up keyspace keyspace-IsLawful config redis_claimed
unfolding redis_claimed
redis_claimed-Up = (claim-Keeps keyspace keyspace-IsLawful config "a" redis_start redis-Up).0

redis_completed : Keyspace
redis_completed = (mark_completed keyspace config "a" (text "x") redis_claimed).1

redis_completed-Up : Up keyspace keyspace-IsLawful config redis_completed
unfolding redis_completed
redis_completed-Up =
    (complete-Keeps keyspace keyspace-IsLawful config "a" (text "x") redis_claimed
      redis_claimed-Up).0

redis_completed_done :
    view keyspace keyspace-IsLawful config redis_completed "a" ≡ some (done (text "x"))
unfolding redis_completed redis_claimed Dict.get mark_completed dumps claim
    message_deduplication_id.Dedup.Redis.lua_claim
    message_deduplication_id.Dedup.Redis.Keyspace.set_px
    message_deduplication_id.Dedup.Redis.lua_update_status Dict.put string_discrete
    message_deduplication_id.Dedup.Redis.redis_key
    message_deduplication_id.Dedup.Redis.Keyspace.set_keepttl decode_value
redis_completed_done = refl

redis_start-Sound : Sound keyspace keyspace-IsLawful config redis_start
redis_start-Sound = Up-Sound keyspace keyspace-IsLawful config redis_start redis-Up

-- Three calls on a state, the last of them an hour later.
an_hour_later : Keyspace → Keyspace
an_hour_later s = record s { clock = s.clock + 3_600_000_000 }

abbrev before_wait : Keyspace → Keyspace
before_wait s =
    after keyspace keyspace-IsLawful config
      (after keyspace keyspace-IsLawful config s (Calls.fails "a" "late" 1)) (Calls.claims "a")

abbrev last_state : Keyspace → Keyspace
last_state s =
    after keyspace keyspace-IsLawful config (an_hour_later (before_wait s))
      (Calls.completes "a" (text "y"))

hour-Drift : (s : Keyspace) → Drift keyspace keyspace-IsLawful config s (an_hour_later s)
unfolding an_hour_later message_deduplication_id.Dedup.Redis.now_ms
hour-Drift s = record { keys = λ key. refl; deadlines = λ key. refl; later = omega arith }

last_state-Run : (s : Keyspace) → Run keyspace keyspace-IsLawful config s (last_state s)
last_state-Run s =
    Run.calls
      (Run.drifts (Run.calls (Run.calls Run.start (Calls.fails "a" "late" 1)) (Calls.claims "a"))
        (hour-Drift (before_wait s)))
      (Calls.completes "a" (text "y"))

run-done_example :
    view keyspace keyspace-IsLawful config (last_state redis_completed) "a" ≡ some (done (text "x"))
run-done_example =
    run-done keyspace keyspace-IsLawful config "a" (text "x")
      (Up-Sound keyspace keyspace-IsLawful config redis_completed redis_completed-Up)
      (last_state-Run redis_completed) redis_completed_done

run_first_claim_example : keyspace.deadline "dedup:a" (last_state redis_claimed) ≡ some 86_405_000
unfolding redis_claimed Dict.get message_deduplication_id.Dedup.Redis.redis_key
    message_deduplication_id.Dedup.Redis.now_ms
run_first_claim_example =
    run_first_claim keyspace keyspace-IsLawful config "a" redis_start (last_state redis_claimed)
      redis-Up refl (last_state-Run redis_claimed)
