-- ===== src/Tests/Unstorable.antt =====
-- A decorated call over the Redis store whose result json.dumps refuses.
use message_deduplication_id.Prelude.{ℕ, String, ◌≡◌, refl, none, [], ◌∷◌, arith}
use message_deduplication_id.Prelude.Dict
use message_deduplication_id.Prelude.Exec.{exception, Exec, ok, raised}
use message_deduplication_id.Dedup.{Value, null, text, int}
use message_deduplication_id.Dedup.Lifecycle.{claimable}
use message_deduplication_id.Dedup.Redis.{claim, mark_completed}
use message_deduplication_id.Dedup.Redis.Keyspace.{Keyspace, keyspace, keyspace-IsLawful, dumps}
use message_deduplication_id.Dedup.Redis.Refines.{Up, redis, redis-Contract, claim-Keeps}
use message_deduplication_id.Idempotency.Guard.Laws.{Leaves}
use message_deduplication_id.Idempotency.Decorator.{Arguments, derive_key, attempt_loop, wrapper}
use message_deduplication_id.Idempotency.Decorator.Laws.{Keyed}
use message_deduplication_id.Idempotency.Decorator.Unstored.{wrapper_unstored}
use message_deduplication_id.Tests.Fixtures.{config, redis_start}

as_text : Value → String
as_text (text t) = t
as_text _ = "?"

call : Arguments
call = record { args = text "order-1" ∷ []; kwargs = [] }

abbrev sleeps : ℕ → Exec Keyspace Unit
sleeps ms s = (ok tt, s)

abbrev counts : Arguments → Exec Keyspace Value
counts a s = (ok (int 3), s)

keyed :
    Keyed
      (redis keyspace keyspace-IsLawful config)
      (redis-Contract keyspace keyspace-IsLawful config)
      as_text
      sleeps
      none
      config
      call
      "order-1"
      counts
unfolding derive_key as_text call
keyed s = refl

start-Up : Up keyspace keyspace-IsLawful config redis_start
unfolding Dict.get
start-Up = record { answers = refl; ttl = omega arith; clean = λ id. tt }

held : Keyspace
held = (claim keyspace config "order-1" redis_start).1

held-Up : Up keyspace keyspace-IsLawful config held
unfolding held
held-Up = (claim-Keeps keyspace keyspace-IsLawful config "order-1" redis_start start-Up).0

-- The lease is over.
later : Keyspace
later = record held { clock = 400_000_000 }

later-Leaves :
    Leaves
      (redis keyspace keyspace-IsLawful config)
      (redis-Contract keyspace keyspace-IsLawful config)
      "order-1"
      held
      later
unfolding later redis-Contract
later-Leaves = record {
  up = record { answers = held-Up.answers; ttl = held-Up.ttl; clean = held-Up.clean };
  rules = refl;
  view = refl;
}

held-Leaves :
    Leaves
      (redis keyspace keyspace-IsLawful config)
      (redis-Contract keyspace keyspace-IsLawful config)
      "order-1"
      held
      held
unfolding redis-Contract
held-Leaves = record { up = held-Up; rules = refl; view = refl }

is_refused :
    mark_completed keyspace config "order-1" (int 3) held
    ≡ (raised (exception "TypeError" "Object is not JSON serializable"), held)
unfolding mark_completed dumps
is_refused = refl

decorated : Exec Keyspace Value
decorated = wrapper (redis keyspace keyspace-IsLawful config) as_text sleeps none config counts call

wrapper_unstored_example :
    (decorated redis_start ≡ (ok (int 3), held))
    × (decorated later
        ≡ attempt_loop
            (redis keyspace keyspace-IsLawful config)
            as_text
            sleeps
            none
            config
            counts
            4
            call
            "order-1"
            1
            none
            (claim keyspace config "order-1" later).1)
unfolding decorated redis-Contract claimable Dict.get held later
    message_deduplication_id.Dedup.Redis.now_ms
wrapper_unstored_example =
    wrapper_unstored (redis keyspace keyspace-IsLawful config)
      (redis-Contract keyspace keyspace-IsLawful config) as_text sleeps none config call "order-1"
      counts counts keyed keyed (int 3) "TypeError" "Object is not JSON serializable" redis_start
      held held later start-Up refl (omega arith) refl is_refused held-Leaves later-Leaves
