-- ===== src/Outbox/Tally.antt =====
-- How many rows of the outbox have a status, and what an update by id does to that.
use message_deduplication_id.Prelude.{
  ℕ, suc, ◌+◌, ◌-◌, ◌≤◌, ◌<◌, ◌≡◌, ◌≢◌, refl, ◌∙◌, Bool, true, false, not, ◌&&◌, List, [], ◌∷◌,
  arith, eqb, leb, inl, inr, Bool-cases, if◌then◌else◌, length,
}
use message_deduplication_id.Outbox.{Status, pending, Row, is_pending, fetch, update}
use message_deduplication_id.Outbox.Writes.{Rising}

unfoldable pub tally : (Status → Bool) → List Row → ℕ
tally p [] = 0
tally p (row ∷ rows) = let n = tally p rows in if p row.status then n + 1 else n

-- Whether the first row with this id is PENDING.
unfoldable pub pending_at : ℕ → List Row → Bool
pending_at id [] = false
pending_at id (row ∷ rows) =
    let later = pending_at id rows in if eqb row.id id then is_pending row.status else later

-- 1 if the status is among those that are counted.
abbrev pub one_if : Bool → ℕ
one_if b = if b then 1 else 0

-- A change of a row that keeps its id and gives it this status.
pub record Sets (st : Status) (f : Row → Row) : Type 0 where
  pub id : (row : Row) → (f row).id ≡ row.id
  pub status : (row : Row) → (f row).status ≡ st

update_below :
    (id low high : ℕ) (f : Row → Row) (rows : List Row)
    → Rising low rows high
    → id < low
    → update id f rows ≡ rows
unfolding update
update_below id low high f [] h lt = refl
update_below id low high f (row ∷ rows) h lt =
    ground (arith, update_below id (suc row.id) high f rows h.1 (omega (arith, h.0)), h.0)

is_pending-pending : (st : Status) → is_pending st ≡ true → st ≡ pending
is_pending-pending pending h = refl
is_pending-pending _ h = cc

pub tally-update :
    (p : Status → Bool) (st : Status) (f : Row → Row) (id low high : ℕ) (rows : List Row)
    → Sets st f
    → Rising low rows high
    → pending_at id rows ≡ true
    → tally p (update id f rows) + one_if (p pending) ≡ tally p rows + one_if (p st)
unfolding tally pending_at update
tally-update p st f id low high [] s h there = absurd (ground arith)
tally-update p st f id low high (row ∷ rows) s h there = elim (Bool-cases (eqb row.id id)) [
  | inl e ↦
      let rest : update id f rows ≡ rows =
        update_below id (suc row.id) high f rows h.1 (ground arith) in
      let old = is_pending-pending row.status (ground arith) in
      rw (e, update, rest, s.status row, old) (ground arith)
  | inr e ↦
      let rest = tally-update p st f id (suc row.id) high rows s h.1 (ground arith) in ground arith
]

pub update-Rising :
    (id low high : ℕ) (f : Row → Row) (rows : List Row)
    → ((row : Row) → (f row).id ≡ row.id)
    → Rising low rows high
    → Rising low (update id f rows) high
unfolding update
update-Rising id low high f [] k h = h
update-Rising id low high f (row ∷ rows) k h = elim (Bool-cases (eqb row.id id)) [
  | inl e ↦ rw (e, update, k row) (h.0, update-Rising id (suc row.id) high f rows k h.1)
  | inr e ↦ rw (e, update) (h.0, update-Rising id (suc row.id) high f rows k h.1)
]

pub pending_at-update :
    (id k : ℕ) (f : Row → Row) (rows : List Row)
    → ((row : Row) → (f row).id ≡ row.id)
    → id ≢ k
    → pending_at k (update id f rows) ≡ pending_at k rows
unfolding pending_at update
pending_at-update id k f [] keeps ne = refl
pending_at-update id k f (row ∷ rows) keeps ne =
    ground (arith, pending_at-update id k f rows keeps ne, keeps row)

-- Rows with rising ids, each PENDING in the table.
abbrev pub Waiting : ℕ → List Row → List Row → Type 0
Waiting low [] rows = Unit {0}
Waiting low (x ∷ xs) rows =
    (low ≤ x.id) × (pending_at x.id rows ≡ true) × Waiting (suc x.id) xs rows

Waiting-cons :
    (low : ℕ) (xs : List Row) (row : Row) (rows : List Row)
    → row.id < low
    → Waiting low xs rows
    → Waiting low xs (row ∷ rows)
unfolding pending_at
Waiting-cons low [] row rows lt h = tt
Waiting-cons low (x ∷ xs) row rows lt (le, there, h) =
    (le, ground arith, Waiting-cons (suc x.id) xs row rows (omega arith) h)

Waiting-weaken :
    (low low' : ℕ) (xs rows : List Row) → low' ≤ low → Waiting low xs rows → Waiting low' xs rows
Waiting-weaken low low' [] rows le h = tt
Waiting-weaken low low' (x ∷ xs) rows le (h, there, rest) = (omega arith, there, rest)

pub Waiting-update :
    (id low : ℕ) (f : Row → Row) (xs rows : List Row)
    → ((row : Row) → (f row).id ≡ row.id)
    → id < low
    → Waiting low xs rows
    → Waiting low xs (update id f rows)
Waiting-update id low f [] rows k lt h = tt
Waiting-update id low f (x ∷ xs) rows k lt (le, there, h) = (
  le,
  pending_at-update id x.id f rows k (λ e. absurd (ground arith)) ∙ there,
  Waiting-update id (suc x.id) f xs rows k (omega arith) h,
)

-- What the relay fetches waits in the table.
pub fetch-Waiting :
    (locked : ℕ → Bool) (n low high : ℕ) (rows : List Row)
    → Rising low rows high
    → Waiting low (fetch locked n rows) rows
unfolding fetch pending_at
fetch-Waiting locked n low high [] h = tt
fetch-Waiting locked n low high (row ∷ rows) h =
    let tail : (m : ℕ) → Waiting (suc row.id) (fetch locked m rows) (row ∷ rows) = λ m.
      Waiting-cons (suc row.id) (fetch locked m rows) row rows (omega arith)
        (fetch-Waiting locked m (suc row.id) high rows h.1) in
    elim (Bool-cases (leb n 0)) [
      | inl none_left ↦ rw (none_left, fetch) tt
      | inr some_left ↦ elim (Bool-cases (is_pending row.status && not (locked row.id))) [
        | inl free ↦ rw (some_left, fetch, free) (h.0, ground arith, tail (n - 1))
        | inr taken ↦
            rw (some_left, fetch, taken)
              (Waiting-weaken (suc row.id) low (fetch locked n rows) (row ∷ rows)
                (omega (arith, h.0)) (tail n))
      ]
    ]

-- Where nothing is locked, the relay fetches as many rows as are PENDING, up to its limit.
pub length-fetch :
    (n : ℕ) (rows : List Row)
    → length (fetch (λ _. false) n rows) + (tally is_pending rows - n) ≡ tally is_pending rows
unfolding fetch tally
length-fetch n [] = omega arith
length-fetch n (row ∷ rows) = elim (Bool-cases (leb n 0)) [
  | inl none_left ↦ rw (none_left, fetch) (ground arith)
  | inr some_left ↦ elim (Bool-cases (is_pending row.status)) [
    | inl free ↦ rw (some_left, fetch, free, tally) (ground (arith, length-fetch (n - 1) rows))
    | inr taken ↦ rw (some_left, fetch, taken, tally) (length-fetch n rows)
  ]
]
