-- ===== src/Outbox/Writes.antt =====
-- Writing to the outbox: the order of the ids, and the message ids of the table.
use message_deduplication_id.Prelude.{
  ℕ, suc, ◌+◌, ◌≤◌, String, ◌≡◌, refl, ◌∙◌, none, true, false, List, [], ◌∷◌, ◌++◌, arith, inl, inr,
  Bool-cases, ◌||◌,
}
use message_deduplication_id.Outbox.{Row, Table, OutboxEntry, has_message, insert, pending}

has_message-append :
    (m : String) (xs ys : List Row)
    → has_message m (xs ++ ys) ≡ (has_message m xs || has_message m ys)
unfolding has_message
has_message-append m [] ys = refl
has_message-append m (x ∷ xs) ys = ground (arith, has_message-append m xs ys)

new_row : OutboxEntry → String → ℕ → Row
new_row e p id = record {
  id = id;
  topic = e.topic;
  message_id = e.message_id;
  payload = p;
  status = pending;
  created_at = e.created_at;
  published_at = none;
}

has_message-new_row :
    (e : OutboxEntry) (p : String) (id : ℕ) → has_message e.message_id (new_row e p id ∷ []) ≡ true
unfolding has_message new_row
has_message-new_row e p id = ground arith

insert_known :
    (e : OutboxEntry) (p : String) (t : Table)
    → has_message e.message_id t.rows ≡ true
    → (insert e p t).rows ≡ t.rows
unfolding insert
insert_known e p t h = rw (h, insert) refl

insert_fresh :
    (e : OutboxEntry) (p : String) (t : Table)
    → has_message e.message_id t.rows ≡ false
    → (insert e p t).rows ≡ t.rows ++ (new_row e p t.next_id ∷ [])
unfolding insert new_row
insert_fresh e p t h = rw (h, insert) refl

-- A written message is in the table.
pub has_message-insert :
    (e : OutboxEntry) (p : String) (t : Table) → has_message e.message_id (insert e p t).rows ≡ true
has_message-insert e p t = elim (Bool-cases (has_message e.message_id t.rows)) [
  | inl old ↦ rw (insert_known e p t old) old
  | inr new ↦
      rw
        (
          insert_fresh e p t new,
          has_message-append e.message_id t.rows (new_row e p t.next_id ∷ []),
          new,
        )
        (has_message-new_row e p t.next_id)
]

-- A message id that was written once is never written again, whatever the second entry holds.
pub insert-insert :
    (e e' : OutboxEntry) (p p' : String) (t : Table)
    → e'.message_id ≡ e.message_id
    → (insert e' p' (insert e p t)).rows ≡ (insert e p t).rows
insert-insert e e' p p' t same =
    insert_known e' p' (insert e p t) (rw same (has_message-insert e p t))

-- Ids rise along the rows, and stay below the bound.
abbrev pub Rising : ℕ → List Row → ℕ → Type 0
Rising low [] high = low ≤ high
Rising low (row ∷ rows) high = (low ≤ row.id) × Rising (suc row.id) rows high

abbrev pub Distinct : List Row → Type 0
Distinct [] = Unit {0}
Distinct (row ∷ rows) = (has_message row.message_id rows ≡ false) × Distinct rows

pub record IsValid (t : Table) : Type 0 where
  pub rising : Rising 0 t.rows t.next_id
  pub distinct : Distinct t.rows

Rising-append :
    (low high : ℕ) (rows : List Row) (row : Row)
    → Rising low rows high
    → row.id ≡ high
    → Rising low (rows ++ (row ∷ [])) (high + 1)
Rising-append low high [] row h e = (omega arith, omega arith)
Rising-append low high (x ∷ xs) row h e = (h.0, Rising-append (suc x.id) high xs row h.1 e)

Rising-mono : (low high : ℕ) (rows : List Row) → Rising low rows high → Rising low rows (high + 1)
Rising-mono low high [] h = omega arith
Rising-mono low high (x ∷ xs) h = (h.0, Rising-mono (suc x.id) high xs h.1)

Distinct-append :
    (rows : List Row) (row : Row)
    → Distinct rows
    → has_message row.message_id rows ≡ false
    → Distinct (rows ++ (row ∷ []))
unfolding has_message
Distinct-append [] row d h = (refl, tt)
Distinct-append (x ∷ xs) row d h = (
  has_message-append x.message_id xs (row ∷ []) ∙ ground arith,
  Distinct-append xs row d.1 (ground arith),
)

-- An insert keeps the ids of the rows rising below the sequence, and the message ids distinct.
pub insert-IsValid : (e : OutboxEntry) (p : String) (t : Table) → IsValid t → IsValid (insert e p t)
unfolding insert
insert-IsValid e p t v = elim (Bool-cases (has_message e.message_id t.rows)) [
  | inl old ↦
      rw (old, insert)
        (record { rising = Rising-mono 0 t.next_id t.rows v.rising; distinct = v.distinct })
  | inr new ↦
      rw (new, insert)
        (record {
          rising = Rising-append 0 t.next_id t.rows _ v.rising refl;
          distinct = Distinct-append t.rows _ v.distinct new;
        })
]
