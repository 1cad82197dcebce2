-- ===== src/Idempotency/Decorator/Laws.antt =====
-- What a decorated call returns and leaves in a store that keeps its contract.
use message_deduplication_id.Prelude.{
  ℕ, suc, ◌+◌, ◌≤◌, String, ◌≡◌, ◌∙◌, true, false, Option, none, some, arith,
}
use message_deduplication_id.Prelude.Exec.{Exn, ok, Exec}
use message_deduplication_id.Dedup.{Value, null, DeduplicationConfig}
use message_deduplication_id.Dedup.Lifecycle.{done, claimable}
use message_deduplication_id.Dedup.Store.{Store, Contract}
use message_deduplication_id.Idempotency.Guard.Laws.{
  is_done, completed_record-done, completed_record-not_done, claimable-not_done,
}
use message_deduplication_id.Idempotency.Decorator.{
  Arguments, derive_key, attempt_loop, after_status, wrapper,
}

module _ (S : Store) (C : Contract S) (str : Value → String) (sleep : ℕ → Exec S.State Unit)
    (key_fn : Option (Arguments → Exec S.State String)) (config : DeduplicationConfig)
    (call : Arguments) (key : String) where
  -- The call has the key `key`, and finding it changes nothing.
  abbrev pub Keyed : (Arguments → Exec S.State Value) → Type 0
  Keyed func = (s : S.State) → derive_key S str sleep key_fn config func call s ≡ (ok key, s)

  module _ (func : Arguments → Exec S.State Value) (keyed : Keyed func) where
    abbrev pub run : Exec S.State Value
    run = wrapper S str sleep key_fn config func call

    -- A COMPLETED key: the call returns the stored result, runs nothing and changes nothing.
    pub wrapper-done :
        (v : Value) (s : S.State) → C.Up s → C.view s key ≡ some (done v) → run s ≡ (ok v, s)
    unfolding wrapper after_status
    wrapper-done v s up h =
        let (r, got, same) = C.status_answer key s up in
        let (q, e, kept) = completed_record-done r v (same ∙ h) in
        ground (arith, keyed s, got, e, kept)

    pub wrapper-claimed :
        (s : S.State)
        → C.Up s
        → claimable (C.rules s) (C.now s) (C.view s key) ≡ true
        → run s
          ≡ attempt_loop S str sleep key_fn config func
              (config.max_retries + 1)
              call
              key
              1
              none
              (S.claim key s).1
    unfolding wrapper after_status
    wrapper-claimed s up free =
        let (r, got, same) = C.status_answer key s up in
        let fresh =
          completed_record-not_done r _ same
            (claimable-not_done (C.rules s) (C.now s) (C.view s key) free) in
        ground (arith, keyed s, got, fresh, C.claim_answer key s up)

    -- A key that is held elsewhere, or whose retries are used up: the call returns None.
    pub wrapper-lost :
        (s : S.State)
        → C.Up s
        → is_done (C.view s key) ≡ false
        → claimable (C.rules s) (C.now s) (C.view s key) ≡ false
        → run s ≡ (ok null, (S.claim key s).1)
    unfolding wrapper after_status
    wrapper-lost s up open_still taken =
        let (r, got, same) = C.status_answer key s up in
        let fresh = completed_record-not_done r _ same open_still in
        ground (arith, keyed s, got, fresh, C.claim_answer key s up)

    pub loop-returned :
        (fuel attempts : ℕ) (l : Option Exn) (v : Value) (s t : S.State)
        → attempts ≤ config.max_retries
        → func call s ≡ (ok v, t)
        → (S.mark_completed key v t).0 ≡ ok tt
        → attempt_loop S str sleep key_fn config func (suc fuel) call key attempts l s
          ≡ (ok v, (S.mark_completed key v t).1)
    unfolding attempt_loop
    loop-returned fuel attempts l v s t le returned stored = ground arith
