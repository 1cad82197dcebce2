-- ===== src/Dedup/Lifecycle.antt =====
-- The life of one message as src/dedup/store.py and README.md ("Status State Machine") promise it:
-- an abstract view of a record, what each operation does to that view, and the transitions as a
-- relation. Times are in the backend's own unit.
pub mod Safety
use message_deduplication_id.Prelude.{
  ℕ, ◌+◌, ◌≤◌, ◌<◌, ◌≡◌, Bool, true, false, ◌&&◌, Option, none, some, ltb, leb, if◌then◌else◌,
}
use message_deduplication_id.Dedup.{
  Value, StatusValue, ProcessingStatus, processing, completed, failed, skipped,
}

-- Of a record, what its further life depends on, and its result once it is COMPLETED: without the id,
-- the dates and the error text, the attempts of a COMPLETED record, and the result that any other
-- record might hold. No record at all is `none`.
pub data Phase : Type 0 where
  running : ℕ → Option ℕ → Phase
  done : Value → Phase
  broken : ℕ → Phase
  passed : Phase

abbrev phase_of : ProcessingStatus → StatusValue → Phase
phase_of r processing = running r.attempts r.lease_expires_at
phase_of r completed = done r.result
phase_of r failed = broken r.attempts
phase_of r skipped = passed

abbrev pub phase : Option ProcessingStatus → Option Phase
phase none = none
phase (some r) = some (phase_of r r.status)

-- What a claim depends on. `lease` is how long a claim stays exclusive.
pub record Rules : Type 0 where
  pub max_retries : ℕ
  pub retry_failed : Bool
  pub lease : ℕ

-- "missing, FAILED with retries left, or PROCESSING with an expired lease"
unfoldable pub claimable : Rules → ℕ → Option Phase → Bool
claimable c now none = true
claimable c now (some (broken n)) = c.retry_failed && ltb n c.max_retries
claimable c now (some (running n (some until))) = leb until now
claimable c now (some (running n none)) = false
claimable c now (some (done v)) = false
claimable c now (some passed) = false

abbrev pub attempts_so_far : Option Phase → ℕ
attempts_so_far (some (broken n)) = n
attempts_so_far (some (running n l)) = n
attempts_so_far _ = 0

unfoldable pub spec_claim : Rules → ℕ → Option Phase → Option Phase
unfolding claimable
spec_claim c now p =
    if claimable c now p then some (running (attempts_so_far p + 1) (some (now + c.lease))) else p

unfoldable pub spec_complete : Value → Option Phase → Option Phase
spec_complete v (some (running n l)) = some (done v)
spec_complete v p = p

unfoldable pub spec_fail : ℕ → Option Phase → Option Phase
spec_fail n (some (running m l)) = some (broken n)
spec_fail n p = p

-- The transitions that a record may make at time `now`.
pub data Step (c : Rules) (now : ℕ) : Option Phase → Option Phase → Type 0 where
  begin : Step c now none (some (running 1 (some (now + c.lease))))
  retry :
      {n : ℕ}
      → c.retry_failed ≡ true
      → n < c.max_retries
      → Step c now (some (broken n)) (some (running (n + 1) (some (now + c.lease))))
  take_over :
      {n until : ℕ}
      → until ≤ now
      → Step c now (some (running n (some until))) (some (running (n + 1) (some (now + c.lease))))
  finish : {n : ℕ} {l : Option ℕ} {v : Value} → Step c now (some (running n l)) (some (done v))
  give_up : {n m : ℕ} {l : Option ℕ} → Step c now (some (running n l)) (some (broken m))
  stay : {p : Option Phase} → Step c now p p
