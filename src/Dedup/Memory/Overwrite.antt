-- ===== src/Dedup/Memory/Overwrite.antt =====
-- `mark_failed` of the in-memory store on a COMPLETED record.
use message_deduplication_id.Prelude.{ℕ, ◌<◌, String, ◌≡◌, true, some, arith}
use message_deduplication_id.Prelude.Exec.{ok}
use message_deduplication_id.Dedup.{Value}
use message_deduplication_id.Dedup.Lifecycle.{done, broken, claimable}
use message_deduplication_id.Dedup.Memory.{MemoryStore, claim, mark_failed}
use message_deduplication_id.Dedup.Memory.Refines.{
  view, claim-claimable, view-mark_failed, fail_keeps,
}

-- A late `mark_failed` turns a COMPLETED record into a FAILED one, whatever its result was; where
-- failed messages are retried and the caller's attempt number is below `max_retries`, the message
-- can then be claimed, so it is processed a second time.
pub mark_failed_reopens :
    (id e : String) (n : ℕ) (v : Value) (m : MemoryStore)
    → view m id ≡ some (done v)
    → m.config.retry_failed ≡ true
    → n < m.config.max_retries
    → (view (mark_failed id e n m).1 id ≡ some (broken n))
      × ((claim id (mark_failed id e n m).1).0 ≡ ok true)
unfolding claimable
mark_failed_reopens id e n v m h retry below = (
  ground (arith, view-mark_failed id id e n m),
  ground (
    arith,
    claim-claimable id (mark_failed id e n m).1,
    view-mark_failed id id e n m,
    fail_keeps id e n m,
  ),
)
