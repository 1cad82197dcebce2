-- ===== src/Tests/Callers.antt =====
-- Runs of the guard and the decorator over the in-memory store, and the theorems on them at concrete
-- inputs.
use message_deduplication_id.Prelude.{◌+◌, String, none, [], ◌∷◌, arith}
use message_deduplication_id.Prelude.Dict
use message_deduplication_id.Prelude.Exec.{Exec}
use message_deduplication_id.Prelude.Exec.Adds.{Adds}
use message_deduplication_id.Dedup.{Value, text}
use message_deduplication_id.Dedup.Memory
use message_deduplication_id.Dedup.Memory.{MemoryStore}
use message_deduplication_id.Dedup.Memory.Refines.{memory}
use message_deduplication_id.Idempotency.Guard.{with_guard}
use message_deduplication_id.Idempotency.Decorator.{Arguments, derive_key, wrapper}
use message_deduplication_id.Idempotency.Decorator.Bounded.{Counts, wrapper-Adds}
use message_deduplication_id.Tests.Fixtures.{config, start, works, sleeps}

claimed : MemoryStore
claimed = (Memory.claim "order-1" start).1

later : MemoryStore
later = record claimed { clock = claimed.clock + 1 }

-- The store after a use of the guard, and a second later.
used : MemoryStore
used = (with_guard memory "order-1" works start).1

used_later : MemoryStore
used_later = record used { clock = used.clock + 1_000_000 }

as_text : Value → String
as_text (text t) = t
as_text _ = "?"

call : Arguments
call = record { args = text "order-1" ∷ []; kwargs = [] }

decorated : (Arguments → Exec MemoryStore Value) → Exec MemoryStore Value
decorated func = wrapper memory as_text sleeps none config func call

decorated_later : MemoryStore
decorated_later = record (decorated works start).1 {
  clock = (decorated works start).1.clock + 1_000_000;
}

works_counted : Counts memory as_text sleeps none config works (λ m. m.clock)
unfolding Memory.claim Memory.mark_completed Memory.mark_failed Memory.get_status derive_key
works_counted = record {
  of_func = λ c. record { at = λ m. omega arith };
  of_claim = λ k. record { at = λ m. ground arith };
  of_status = λ k. record { at = λ m. omega arith };
  of_complete = λ k v. record { at = λ m. ground arith };
  of_fail = λ k e n. record { at = λ m. ground arith };
  of_sleep = λ ms. record { at = λ m. omega arith };
  of_key = λ c. record { at = λ m. ground arith };
}

wrapper-Adds_example : Adds (λ (m : MemoryStore). m.clock) 3 (decorated works)
unfolding decorated
wrapper-Adds_example =
    wrapper-Adds memory as_text sleeps none config works (λ m. m.clock) works_counted call
