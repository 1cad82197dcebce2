-- ===== src/Idempotency/Guard.antt =====
-- `IdempotencyGuard`. Its `_config` is stored and never read, so it has no field here.
pub mod Laws
pub mod Uses
use message_deduplication_id.Prelude.{
  String, ◌<>◌, Bool, true, false, Option, none, some, if◌then◌else◌,
}
use message_deduplication_id.Prelude.Exec.{
  Exn, Result, ok, raised, Exec, pure, raise, ◌>>=◌, ◌>>◌, exn_name, exn_message,
}
use message_deduplication_id.Dedup.{Value, null, ProcessingStatus, is_completed}
use message_deduplication_id.Dedup.Store.{Store}

pub record Guard : Type 0 where
  pub key : String
  pub already_processed : Bool
  pub previous_result : Value
  pub result : Value

unfoldable pub new_guard : String → Guard
new_guard key = record {
  key = key;
  already_processed = false;
  previous_result = null;
  result = null;
}

-- `existing is not None and existing.status == StatusValue.COMPLETED`
abbrev pub completed_record : Option ProcessingStatus → Option ProcessingStatus
completed_record none = none
completed_record (some r) = if is_completed r.status then some r else none

module _ (S : Store) where
  unfoldable pub aenter : Guard → Exec S.State Guard
  aenter g = do
    existing ← S.get_status g.key
    elim (completed_record existing) [
      | some r ↦ pure (record g { already_processed = true; previous_result = r.result })
      | none ↦ do
        claimed ← S.claim g.key
        pure (if claimed then g else record g { already_processed = true })
    ]

  -- f"{exc_type.__name__}: {exc_val}"
  abbrev pub error_msg : Exn → String
  error_msg e = exn_name e <> ": " <> exn_message e

  unfoldable pub aexit : Guard → Option Exn → Exec S.State Bool
  aexit g exc = if g.already_processed then pure false else elim exc [
    | some e ↦ do S.mark_failed g.key (error_msg e) 1; pure false
    | none ↦ do S.mark_completed g.key g.result; pure false
  ]

  -- Whether the exception goes on is what `__aexit__` returned.
  abbrev reraise : Exn → Bool → Exec S.State Unit
  reraise e suppress = if suppress then pure tt else raise e

  leave : Guard → Result Value × S.State → Result (Unit {0}) × S.State
  unfolding aexit
  leave g (ok v, s) = (do aexit (record g { result = v }) none; pure tt) s
  leave g (raised e, s) = (do suppress ← aexit g (some e); reraise e suppress) s

  -- async with IdempotencyGuard(store, key) as guard: body. The body sees the guard, and its value
  -- is what `guard.result` holds when the block is left without an exception.
  unfoldable pub with_guard : String → (Guard → Exec S.State Value) → Exec S.State Unit
  unfolding leave
  with_guard key body = do g ← aenter (new_guard key); λ s. leave g (body g s)
