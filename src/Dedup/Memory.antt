-- ===== src/Dedup/Memory.antt =====
-- src/dedup/memory_store.py. Each method holds the lock and awaits nothing under it, so it is one
-- atomic function of the store. `clock` is what `datetime.now(UTC)` reads, in microseconds.
pub mod Refines
pub mod Facts
pub mod Overwrite
use message_deduplication_id.Prelude.{
  ℕ, ◌+◌, ◌*◌, String, Bool, true, false, ◌&&◌, ◌||◌, Option, none, some, [], ltb, leb, length,
  if◌then◌else◌,
}
use message_deduplication_id.Prelude.Dict
use message_deduplication_id.Prelude.Dict.{Dict}
use message_deduplication_id.Prelude.Exec.{Exec, Result, ok}
use message_deduplication_id.Dedup.{
  Value, null, ProcessingStatus, processing, completed, failed, is_processing, is_failed,
  DeduplicationConfig,
}

pub record MemoryStore : Type 0 where
  pub config : DeduplicationConfig
  pub table : Dict ProcessingStatus
  pub clock : ℕ

unfoldable pub init : DeduplicationConfig → ℕ → MemoryStore
init c now = record { config = c; table = []; clock = now }

abbrev pub us_per_second : ℕ
us_per_second = 1_000_000

abbrev pub lease_span : DeduplicationConfig → ℕ
lease_span c = c.processing_timeout_seconds * us_per_second

abbrev retryable : DeduplicationConfig → ProcessingStatus → Bool
retryable c existing = is_failed existing && c.retry_failed && ltb existing.attempts c.max_retries

abbrev lease_over : ℕ → Option ℕ → Bool
lease_over now none = false
lease_over now (some until) = leb until now

abbrev orphaned : ℕ → ProcessingStatus → Bool
orphaned now existing = is_processing existing.status && lease_over now existing.lease_expires_at

first_claim : String → ℕ → ℕ → ProcessingStatus
first_claim id now until = record {
  message_id = id;
  status = processing;
  attempts = 1;
  result = null;
  error = none;
  lease_expires_at = some until;
  created_at = now;
  updated_at = now;
}

re_claim : String → ℕ → ℕ → ProcessingStatus → ProcessingStatus
re_claim id now until existing = record {
  message_id = id;
  status = processing;
  attempts = existing.attempts + 1;
  result = null;
  error = none;
  lease_expires_at = some until;
  created_at = existing.created_at;
  updated_at = now;
}

abbrev write : MemoryStore → String → ProcessingStatus → MemoryStore
write m id r = record m { table = Dict.put m.table id r }

unfoldable pub claim : String → Exec MemoryStore Bool
unfolding first_claim re_claim
claim id m =
    let now = m.clock in
    let until = now + lease_span m.config in
    elim (Dict.get m.table id) [
      | none ↦ (ok true, write m id (first_claim id now until))
      | some existing ↦
          if retryable m.config existing || orphaned now existing
          then (ok true, write m id (re_claim id now until existing))
          else (ok false, m)
    ]

unfoldable pub is_duplicate : String → Exec MemoryStore Bool
is_duplicate id m = elim (Dict.get m.table id) [ none ↦ (ok false, m) | some _ ↦ (ok true, m) ]

completed_record : Value → ℕ → ProcessingStatus → ProcessingStatus
completed_record result now r = record r {
  status = completed;
  result = result;
  lease_expires_at = none;
  updated_at = now;
}

failed_record : String → ℕ → ℕ → ProcessingStatus → ProcessingStatus
failed_record error attempts now r = record r {
  status = failed;
  error = some error;
  attempts = attempts;
  lease_expires_at = none;
  updated_at = now;
}

unfoldable pub mark_completed : String → Value → Exec MemoryStore Unit
unfolding completed_record
mark_completed id result m = elim (Dict.get m.table id) [
  | none ↦ (ok tt, m)
  | some r ↦
      if is_processing r.status
      then (ok tt, write m id (completed_record result m.clock r))
      else (ok tt, m)
]

unfoldable pub mark_failed : String → String → ℕ → Exec MemoryStore Unit
unfolding failed_record
mark_failed id error attempts m = elim (Dict.get m.table id) [
  | none ↦ (ok tt, m)
  | some r ↦ (ok tt, write m id (failed_record error attempts m.clock r))
]

unfoldable pub get_status : String → Exec MemoryStore (Option ProcessingStatus)
get_status id m = (ok (Dict.get m.table id), m)

unfoldable pub delete : String → Exec MemoryStore Unit
delete id m = (ok tt, record m { table = Dict.remove m.table id })

unfoldable pub size : MemoryStore → ℕ
size m = length m.table

unfoldable pub clear : MemoryStore → MemoryStore
clear m = record m { table = [] }

unfoldable pub close : Exec MemoryStore Unit
close m = (ok tt, m)
