-- ===== src/Dedup/Memory/Facts.antt =====
-- What the methods of the in-memory store do to the records, without their dates and ids.
use message_deduplication_id.Prelude.{
  ℕ, ◌+◌, String, ◌≡◌, Option, none, some, ◌==◌, arith, if◌then◌else◌, Option-cases, inl, inr,
}
use message_deduplication_id.Prelude.Dict
use message_deduplication_id.Prelude.Dict.{get-put, get-remove}
use message_deduplication_id.Dedup.{Value}
use message_deduplication_id.Dedup.Lifecycle.{running, claimable}
use message_deduplication_id.Dedup.Lockstep.{Facts, facts_of, claimed, finished, abandoned}
use message_deduplication_id.Dedup.Memory.{
  MemoryStore, lease_span, first_claim, re_claim, completed_record, failed_record, claim,
  mark_completed, mark_failed, delete,
}
use message_deduplication_id.Dedup.Memory.Refines.{rules, view}

abbrev pub facts : MemoryStore → String → Option Facts
facts m k = facts_of (Dict.get m.table k)

pub facts-claim :
    (id j : String) (m : MemoryStore)
    → facts (claim id m).1 j ≡ (
        if j == id
        then claimed
            (claimable (rules m) m.clock (view m id))
            (m.clock + (rules m).lease)
            (facts m id)
        else facts m j)
unfolding claim claimable
facts-claim id j m =
    let until = m.clock + lease_span m.config in
    elim (Option-cases (Dict.get m.table id)) [
      | inl e ↦ ground (arith, get-put m.table id j (first_claim id m.clock until))
      | inr (r, e) ↦ ground (arith, get-put m.table id j (re_claim id m.clock until r))
    ]

pub facts-mark_completed :
    (id j : String) (v : Value) (m : MemoryStore)
    → facts (mark_completed id v m).1 j ≡ (if j == id then finished v (facts m id) else facts m j)
unfolding mark_completed
facts-mark_completed id j v m = elim (Option-cases (Dict.get m.table id)) [
  | inl e ↦ ground arith
  | inr (r, e) ↦ ground (arith, get-put m.table id j (completed_record v m.clock r))
]

pub facts-mark_failed :
    (id j e : String) (n k : ℕ) (l : Option ℕ) (m : MemoryStore)
    → view m id ≡ some (running k l)
    → facts (mark_failed id e n m).1 j ≡ (if j == id then abandoned e n (facts m id) else facts m j)
unfolding mark_failed
facts-mark_failed id j e n k l m h = elim (Option-cases (Dict.get m.table id)) [
  | inl none_there ↦ ground arith
  | inr (r, there) ↦ ground (arith, get-put m.table id j (failed_record e n m.clock r))
]

pub facts-delete :
    (id j : String) (m : MemoryStore)
    → facts (delete id m).1 j ≡ (if j == id then none else facts m j)
unfolding delete
facts-delete id j m = ground (arith, get-remove m.table id j)
