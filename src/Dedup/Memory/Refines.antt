-- ===== src/Dedup/Memory/Refines.antt =====
-- The in-memory store against the lifecycle: what each method does to the views of its keys, and the
-- contract of a store.
use message_deduplication_id.Prelude.{
  ℕ, ◌+◌, String, ◌≡◌, ◌≢◌, refl, Option, none, some, arith, Option-cases, inl, inr, ◌==◌,
  if◌then◌else◌,
}
use message_deduplication_id.Prelude.Dict
use message_deduplication_id.Prelude.Dict.{dict_laws, get-put, get-remove}
use message_deduplication_id.Prelude.Exec.{ok}
use message_deduplication_id.Dedup.{Value, ProcessingStatus}
use message_deduplication_id.Dedup.Lifecycle.{
  Phase, running, broken, phase, Rules, claimable, spec_claim, spec_complete, spec_fail,
}
use message_deduplication_id.Dedup.Store.{Store, Contract}
use message_deduplication_id.Dedup.Memory.{
  MemoryStore, lease_span, first_claim, re_claim, completed_record, failed_record, claim,
  is_duplicate, mark_completed, mark_failed, get_status, delete, close,
}

abbrev pub rules : MemoryStore → Rules
rules m = record {
  max_retries = m.config.max_retries;
  retry_failed = m.config.retry_failed;
  lease = lease_span m.config;
}

abbrev pub view : MemoryStore → String → Option Phase
view m id = phase (Dict.get m.table id)

-- `claim` answers by the claim rule.
pub claim-claimable :
    (id : String) (m : MemoryStore) → (claim id m).0 ≡ ok (claimable (rules m) m.clock (view m id))
unfolding claim claimable
claim-claimable id m = ground arith

-- `claim` moves the view of its key as the lifecycle says, and leaves every other key as it was.
pub view-claim :
    (id j : String) (m : MemoryStore)
    → view (claim id m).1 j
      ≡ (if j == id then spec_claim (rules m) m.clock (view m id) else view m j)
unfolding claim spec_claim
view-claim id j m = elim (Option-cases (Dict.get m.table id)) [
  | inl e ↦
      ground (arith, get-put m.table id j (first_claim id m.clock (m.clock + lease_span m.config)))
  | inr (r, e) ↦
      ground (arith, get-put m.table id j (re_claim id m.clock (m.clock + lease_span m.config) r))
]

pub view-mark_completed :
    (id j : String) (v : Value) (m : MemoryStore)
    → view (mark_completed id v m).1 j ≡ (if j == id then spec_complete v (view m id) else view m j)
unfolding mark_completed spec_complete
view-mark_completed id j v m = elim (Option-cases (Dict.get m.table id)) [
  | inl e ↦ ground arith
  | inr (r, e) ↦ ground (arith, get-put m.table id j (completed_record v m.clock r))
]

pub view-mark_failed :
    (id j e : String) (n : ℕ) (m : MemoryStore)
    → view (mark_failed id e n m).1 j
      ≡ (if j == id then elim (view m id) [ none ↦ none | some _ ↦ some (broken n) ] else view m j)
unfolding mark_failed
view-mark_failed id j e n m = elim (Option-cases (Dict.get m.table id)) [
  | inl h ↦ ground arith
  | inr (r, h) ↦ ground (arith, get-put m.table id j (failed_record e n m.clock r))
]

pub view-delete :
    (id j : String) (m : MemoryStore)
    → view (delete id m).1 j ≡ (if j == id then none else view m j)
unfolding delete
view-delete id j m = ground (arith, get-remove m.table id j)

-- The methods neither change the configuration nor the clock.
abbrev pub SameRules : MemoryStore → MemoryStore → Type 0
SameRules m n = Unit {0} × (rules n ≡ rules m) × (n.clock ≡ m.clock)

pub claim_keeps : (id : String) (m : MemoryStore) → SameRules m (claim id m).1
unfolding claim
claim_keeps id m = (tt, ground arith, ground arith)

pub complete_keeps :
    (id : String) (v : Value) (m : MemoryStore) → SameRules m (mark_completed id v m).1
unfolding mark_completed
complete_keeps id v m = (tt, ground arith, ground arith)

pub fail_keeps : (id e : String) (n : ℕ) (m : MemoryStore) → SameRules m (mark_failed id e n m).1
unfolding mark_failed
fail_keeps id e n m = (tt, ground arith, ground arith)

pub complete_answer :
    (id : String) (v : Value) (m : MemoryStore) → (mark_completed id v m).0 ≡ ok tt
unfolding mark_completed
complete_answer id v m = ground arith

pub fail_answer : (id e : String) (n : ℕ) (m : MemoryStore) → (mark_failed id e n m).0 ≡ ok tt
unfolding mark_failed
fail_answer id e n m = ground arith

pub fail_view :
    (id j e : String) (n k : ℕ) (l : Option ℕ) (m : MemoryStore)
    → view m id ≡ some (running k l)
    → view (mark_failed id e n m).1 j ≡ (if j == id then spec_fail n (view m id) else view m j)
unfolding spec_fail
fail_view id j e n k l m h = ground (arith, view-mark_failed id j e n m)

pub complete_other :
    (id j : String) (v : Value) (m : MemoryStore)
    → id ≢ j
    → view (mark_completed id v m).1 j ≡ view m j
complete_other id j v m ne = ground (arith, view-mark_completed id j v m)

pub fail_other :
    (id j e : String) (n : ℕ) (m : MemoryStore)
    → id ≢ j
    → view (mark_failed id e n m).1 j ≡ view m j
fail_other id j e n m ne = ground (arith, view-mark_failed id j e n m)

abbrev pub memory : Store
memory = record {
  State = MemoryStore;
  claim = claim;
  is_duplicate = is_duplicate;
  mark_completed = mark_completed;
  mark_failed = mark_failed;
  get_status = get_status;
  delete = delete;
  close = close;
}

pub status_answer :
    (id : String) (m : MemoryStore)
    → (r : Option ProcessingStatus) × (get_status id m ≡ (ok r, m)) × (phase r ≡ view m id)
unfolding get_status
status_answer id m = (Dict.get m.table id, refl, refl)

-- The in-memory store keeps the contract of a store, for results and error texts of any kind.
unfoldable pub memory-Contract : Contract memory
memory-Contract = record {
  view = view;
  rules = rules;
  now = λ m. m.clock;
  Up = λ _. Unit {0};
  Storable = λ _. Unit {0};
  claim_answer = λ id m _. claim-claimable id m;
  claim_view = λ id j m _. view-claim id j m;
  claim_keeps = λ id m _. claim_keeps id m;
  complete_answer = λ id v m _ _. complete_answer id v m;
  complete_view = λ id j v m _ _. view-mark_completed id j v m;
  complete_keeps = λ id v m _. complete_keeps id v m;
  fail_answer = λ id e n m _. fail_answer id e n m;
  fail_view = λ id j e n k l m _. fail_view id j e n k l m;
  complete_other = λ id j v m ne _. complete_other id j v m ne;
  fail_other = λ id j e n m ne _. fail_other id j e n m ne;
  fail_keeps = λ id e n m _. fail_keeps id e n m;
  status_answer = λ id m _. status_answer id m;
}

-- `claim` of the in-memory store is the claim rule: it answers whether the message is claimable at
-- the store's clock, moves the view of its own key by the rule, and leaves every other key alone.
pub claim-spec_claim :
    (id j : String) (m : MemoryStore)
    → ((claim id m).0 ≡ ok (claimable (rules m) m.clock (view m id)))
      × (view (claim id m).1 j
          ≡ (if j == id then spec_claim (rules m) m.clock (view m id) else view m j))
claim-spec_claim id j m = (claim-claimable id m, view-claim id j m)
