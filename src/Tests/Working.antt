-- ===== src/Tests/Working.antt =====
-- Callers that work on one message, at concrete inputs.
use message_deduplication_id.Prelude.{
  ℕ, none, [], ◌+◌, ◌≤◌, ◌<◌, ◌≡◌, refl, true, false, some, arith, string_discrete,
}
use message_deduplication_id.Prelude.Dict
use message_deduplication_id.Prelude.Exec.{Exec, ok, pure}
use message_deduplication_id.Dedup.{Value, text}
use message_deduplication_id.Dedup.Lifecycle.{running}
use message_deduplication_id.Dedup.Memory
use message_deduplication_id.Dedup.Memory.{MemoryStore}
use message_deduplication_id.Dedup.Memory.Refines.{memory, memory-Contract, view}
use message_deduplication_id.Dedup.Workers.{
  set, Situation, idle, lease_end, Reach, begins, moves, wins, completes,
}
use message_deduplication_id.Dedup.Workers.Exclusion.{Reach-alone, Reach-once}
use message_deduplication_id.Dedup.Workers.Late.{mark_failed_overlaps}
use message_deduplication_id.Idempotency.Guard.{Guard}
use message_deduplication_id.Idempotency.Guard.Uses.{Behaves, Used, with_guard-Used}
use message_deduplication_id.Tests.Fixtures.{config}

abbrev empty_store : MemoryStore
empty_store = record { config = config; table = []; clock = 1000 }

abbrev claimed : MemoryStore
claimed = (Memory.claim "a" empty_store).1

-- Caller 7 works on the message.
abbrev one_works : Situation memory memory-Contract "a"
one_works = record {
  store = claimed;
  working = set (λ i. none) 7 (some (lease_end memory memory-Contract "a" empty_store));
  completions = 0;
}

one_works-Reach : Reach memory memory-Contract "a" empty_store one_works
unfolding Memory.claim Dict.get
one_works-Reach = moves begins (wins 7 refl refl)

Reach-alone_example : let caller : ℕ = 7 in caller ≡ caller
unfolding memory-Contract Memory.claim Dict.get
Reach-alone_example =
    Reach-alone memory memory-Contract "a" 7 7 300_001_000 300_001_000 tt one_works-Reach refl refl
      (omega arith) (omega arith)

abbrev one_completed : Situation memory memory-Contract "a"
one_completed = record {
  store = (Memory.mark_completed "a" (text "x") claimed).1;
  working = set one_works.working 7 none;
  completions = 0 + 1;
}

Reach-once_example : one_completed.completions ≤ 1
unfolding memory-Contract Memory.claim Dict.get
Reach-once_example =
    Reach-once memory memory-Contract "a" {s = empty_store} {c = one_completed} tt
      (moves one_works-Reach (completes 7 300_001_000 (text "x") refl (omega arith) tt))

mark_failed_overlaps_example :
    let t = (Memory.mark_failed "a" "timeout" 1 claimed).1 in
    ((Memory.claim "a" claimed).0 ≡ ok false)
    × ((Memory.claim "a" t).0 ≡ ok true)
    × (view (Memory.claim "a" t).1 "a" ≡ some (running 2 (some 300_001_000)))
    × ((Memory.claim "a" t).1.clock < 300_001_000)
unfolding memory-Contract Dict.get Memory.claim Dict.put string_discrete Memory.mark_failed
mark_failed_overlaps_example =
    mark_failed_overlaps memory memory-Contract "a" claimed "timeout" 1 1 300_001_000 tt refl
      (omega arith) refl (omega arith)

empty_store-Up : memory-Contract.Up empty_store
unfolding memory-Contract
empty_store-Up = tt

abbrev answers : Guard → Exec MemoryStore Value
answers g = pure (text "x")

answers-Behaves : Behaves memory memory-Contract "a" 7 empty_store empty_store-Up answers
unfolding memory-Contract
answers-Behaves = record {
  works = λ c u r w l. (c, r, refl, w, l);
  storable = λ s v h. tt;
  passes = λ c g r h. (c, r, refl);
}

with_guard-Used_example :
    Used memory memory-Contract "a" 7 empty_store empty_store-Up answers
      (idle memory memory-Contract "a" empty_store)
unfolding memory-Contract
with_guard-Used_example =
    with_guard-Used memory memory-Contract "a" 7 empty_store empty_store-Up answers
      (idle memory memory-Contract "a" empty_store) answers-Behaves begins refl (omega arith)
