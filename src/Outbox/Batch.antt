-- ===== src/Outbox/Batch.antt =====
-- The relay's batches: what a batch leaves in the table.
use mathlib.Core.Path.{sym, subst}
use message_deduplication_id.Prelude.{
  ℕ, suc, ◌+◌, ◌≡◌, ◌≢◌, inl, inr, refl, ap, ◌∙◌, Bool, true, false, List, [], ◌∷◌, arith, length,
}
use message_deduplication_id.Prelude.Exec.{Exn, Result, ok, raised, Result-cases}
use message_deduplication_id.Outbox.{
  Status, published, failed, Row, Table, Ending, committed, undone, unanswered, Services, World,
  fetch, update, on_rows, as_published, as_failed, is_pending, publish_rows, commit_or_undo,
  process_batch,
}
use message_deduplication_id.Outbox.Rows.{
  updated, marked, marked_again, row-Outcome, publishes, unsent, unmarked, ends,
}
use message_deduplication_id.Outbox.Writes.{Rising}
use message_deduplication_id.Outbox.Tally.{
  tally, Sets, one_if, tally-update, update-Rising, Waiting, Waiting-update, fetch-Waiting,
}

abbrev pub is_published : Status → Bool
is_published published = true
is_published _ = false

abbrev pub is_failed : Status → Bool
is_failed failed = true
is_failed _ = false

published-Sets : (now : ℕ) → Sets published (as_published now)
published-Sets now = record { id = λ row. refl; status = λ row. refl }

failed-Sets : Sets failed as_failed
failed-Sets = record { id = λ row. refl; status = λ row. refl }

-- The rows `xs` have been handled: `m - n` of them are PUBLISHED, and the others FAILED.
pub record Accounted (xs : List Row) (n m : ℕ) (old new : Table) : Type 0 where
  pub next_id : new.next_id ≡ old.next_id
  pub rising : Rising 0 new.rows new.next_id
  pub sent : tally is_published new.rows + n ≡ tally is_published old.rows + m
  pub lost : tally is_failed new.rows + m ≡ tally is_failed old.rows + n + length xs
  pub left : tally is_pending new.rows + length xs ≡ tally is_pending old.rows

data EndingCase (x : Ending) : Type 0 where
  done : x ≡ committed → EndingCase x
  fails : (e : Exn) → x ≡ undone e → EndingCase x
  silent : (e : Exn) → x ≡ unanswered e → EndingCase x

Ending-cases : (x : Ending) → EndingCase x
Ending-cases committed = done refl
Ending-cases (undone e) = fails e refl
Ending-cases (unanswered e) = silent e refl

module _ (P : Services) where
  -- One row of the batch, and then the others.
  step-Accounted :
      (st : Status) (f : Row → Row) (x : Row) (xs : List Row) (low n n' m : ℕ) (old new : Table)
      → Sets st f
      → Rising 0 old.rows old.next_id
      → Waiting low (x ∷ xs) old.rows
      → n' + one_if (is_failed st) ≡ n + 1
      → n' ≡ n + one_if (is_published st)
      → is_pending st ≡ false
      → Accounted xs n' m (on_rows (update x.id f) old) new
      → Accounted (x ∷ xs) n m old new
  step-Accounted st f x xs low n n' m old new s rising (le, there, rest) not_failed is_sent closed
        a =
      let p = tally-update is_published st f x.id 0 old.next_id old.rows s rising there in
      let q = tally-update is_failed st f x.id 0 old.next_id old.rows s rising there in
      let r = tally-update is_pending st f x.id 0 old.next_id old.rows s rising there in
      record {
        next_id = a.next_id;
        rising = a.rising;
        sent = ground (arith, a.sent);
        lost = ground (arith, a.lost);
        left = ground (arith, a.left);
      }

  along :
      {xs : List Row} {n m : ℕ} {old : Table} {r q : Result ℕ × World P}
      → r ≡ q
      → Accounted xs n m old q.1.table
      → Accounted xs n m old r.1.table
  along {xs} {n} {m} {old} e a = subst (λ z. Accounted xs n m old z.1.table) (sym e) a

  -- The rows that are left still wait once the first one is handled.
  rest-Waiting :
      (f : Row → Row) (x : Row) (xs : List Row) (low : ℕ) (t : Table)
      → ((row : Row) → (f row).id ≡ row.id)
      → Rising 0 t.rows t.next_id
      → Waiting low (x ∷ xs) t.rows
      → Rising 0 (update x.id f t.rows) t.next_id × Waiting (suc x.id) xs (update x.id f t.rows)
  rest-Waiting f x xs low t keeps rising waiting = (
    update-Rising x.id 0 _ f t.rows keeps rising,
    Waiting-update x.id (suc x.id) f xs t.rows keeps (omega arith) waiting.2,
  )

  publish_rows-Accounted :
      (xs : List Row) (low n m : ℕ) (w : World P)
      → Rising 0 w.table.rows w.table.next_id
      → Waiting low xs w.table.rows
      → (publish_rows P xs n w).0 ≡ ok m
      → Accounted xs n m w.table (publish_rows P xs n w).1.table
  unfolding publish_rows
  publish_rows-Accounted [] low n m w rising waiting h =
      let same : n ≡ m = cc in
      record {
        next_id = refl;
        rising = rising;
        sent = omega arith;
        lost = omega arith;
        left = omega arith;
      }
  publish_rows-Accounted (x ∷ xs) low n m w rising waiting h =
      let lost : (s : P.State)
          → publish_rows P (x ∷ xs) n w ≡ publish_rows P xs n (updated P as_failed x s w)
          → Accounted (x ∷ xs) n m w.table (publish_rows P (x ∷ xs) n w).1.table =
        λ s same.
          let (rising', waiting') =
            rest-Waiting as_failed x xs low w.table (λ row. refl) rising waiting in
          along same (
            step-Accounted failed as_failed x xs low n n m w.table _ failed-Sets rising waiting
              (omega arith) (omega arith) refl
              (publish_rows-Accounted xs (suc x.id) n m (updated P as_failed x s w) rising' waiting'
                (ap (λ r. r.0) (sym same) ∙ h))) in
      elim (row-Outcome P x xs n w) [
        | publishes e f same ↦
            let g = as_published w.clock in
            let (rising', waiting') =
              rest-Waiting g x xs low w.table (λ row. refl) rising waiting in
            along same (
              step-Accounted published g x xs low n (n + 1) m w.table _ (published-Sets w.clock)
                rising waiting (omega arith) (omega arith) refl
                (publish_rows-Accounted xs (suc x.id) (n + 1) m (updated P g x (marked P x w).1 w)
                  rising' waiting' (ap (λ r. r.0) (sym same) ∙ h)))
        | unsent a b e f same ↦ lost (marked P x w).1 same
        | unmarked a b e f g same ↦ lost (marked_again P x w).1 same
        | ends e raises ↦ absurd (ground arith)
      ]

  -- No COMMIT is done whose answer is lost.
  abbrev pub Answers : Type 0
  Answers = (s : P.State) (e : Exn) → (P.commit s).0 ≢ unanswered e

  undone_table :
      (old : Table) (e : Exn) (r : Result ℕ × World P)
      → Answers
      → (commit_or_undo P old r).0 ≡ raised e
      → (commit_or_undo P old r).1.table ≡ old
  undone_table old e (ok a, w) told h = elim (Ending-cases (P.commit w.services).0) [
    | done f ↦ absurd (ground arith)
    | fails x f ↦ ground arith
    | silent x f ↦ absurd (told w.services x f)
  ]
  undone_table old e (raised x, w) told h = elim (Result-cases (P.rollback w.services).0) [
    | inl (tt, f) ↦ ground arith
    | inr (y, f) ↦ ground arith
  ]

  -- A batch of the outbox relay that raises, as when the relay is cancelled in the middle of a send
  -- or a statement fails, leaves every row as it was, the PENDING rows that were sent in it too. No
  -- COMMIT is done whose answer is lost, and no other transaction changes the table while the batch
  -- runs.
  pub process_batch_raised :
      (locked : ℕ → Bool) (n : ℕ) (e : Exn) (w : World P)
      → Answers
      → (process_batch P locked n w).0 ≡ raised e
      → (process_batch P locked n w).1.table ≡ w.table
  unfolding process_batch
  process_batch_raised locked n e w told h = elim (Result-cases (P.begin w.services).0) [
    | inr (x, f) ↦ ground arith
    | inl (tt, f) ↦ elim (Result-cases (P.statement (P.begin w.services).1).0) [
      | inr (y, g) ↦ elim (Result-cases (P.rollback (P.statement (P.begin w.services).1).1).0) [
        | inl (tt, k) ↦ ground arith
        | inr (z, k) ↦ ground arith
      ]
      | inl (tt, g) ↦
          let u = record w { services = (P.statement (P.begin w.services).1).1 } in
          ground
            (arith, undone_table w.table e (publish_rows P (fetch locked n w.table.rows) 0 u) told)
    ]
  ]

  kept :
      (old : Table) (m : ℕ) (r : Result ℕ × World P)
      → (commit_or_undo P old r).0 ≡ ok m
      → (r.0 ≡ ok m)
        × ((commit_or_undo P old r).1.table ≡ r.1.table)
        × ((commit_or_undo P old r).1.services ≡ (P.commit r.1.services).1)
  kept old m (ok a, w) h = elim (Ending-cases (P.commit w.services).0) [
    | done f ↦ (ground arith, ground arith, ground arith)
    | fails x f ↦ absurd (ground arith)
    | silent x f ↦ absurd (ground arith)
  ]
  kept old m (raised e, w) h = elim (Result-cases (P.rollback w.services).0) [
    | inl (tt, f) ↦ absurd (ground arith)
    | inr (y, f) ↦ absurd (ground arith)
  ]

  -- A batch that returned began its transaction, fetched its rows and went through them.
  pub record Returned (locked : ℕ → Bool) (b m : ℕ) (w : World P) : Type 0 where
    pub entered : World P
    pub selects : (P.statement (P.begin w.services).1).0 ≡ ok tt
    pub services : entered.services ≡ (P.statement (P.begin w.services).1).1
    pub table : entered.table ≡ w.table
    pub rows : (publish_rows P (fetch locked b w.table.rows) 0 entered).0 ≡ ok m
    pub result :
        (process_batch P locked b w).1.table
        ≡ (publish_rows P (fetch locked b w.table.rows) 0 entered).1.table
    pub closes :
        (process_batch P locked b w).1.services
        ≡ (P.commit (publish_rows P (fetch locked b w.table.rows) 0 entered).1.services).1

  pub process_batch-Returned :
      (locked : ℕ → Bool) (b m : ℕ) (w : World P)
      → (process_batch P locked b w).0 ≡ ok m
      → Returned locked b m w
  unfolding process_batch
  process_batch-Returned locked b m w h = elim (Result-cases (P.begin w.services).0) [
    | inr (x, f) ↦ absurd (ground arith)
    | inl (tt, f) ↦ elim (Result-cases (P.statement (P.begin w.services).1).0) [
      | inr (y, g) ↦
          absurd (elim (Result-cases (P.rollback (P.statement (P.begin w.services).1).1).0) [
            | inl (tt, k) ↦ ground arith
            | inr (z, k) ↦ ground arith
          ])
      | inl (tt, g) ↦
          let u = record w { services = (P.statement (P.begin w.services).1).1 } in
          let k =
            kept w.table m (publish_rows P (fetch locked b w.table.rows) 0 u) (ground arith) in
          record {
            entered = u;
            selects = g;
            services = refl;
            table = refl;
            rows = k.0;
            result = ground (arith, k.1);
            closes = ground (arith, k.2);
          }
    ]
  ]

  -- A batch that returns accounts for every row that it fetched: the number of PUBLISHED rows grows by
  -- what it returns, the number of FAILED rows by the other fetched rows, and the number of PENDING
  -- rows falls by all of them, whatever the producer and the connection do. The ids of the table rise
  -- before and after. No other transaction changes the table while the batch runs.
  pub process_batch-Accounted :
      (locked : ℕ → Bool) (b m : ℕ) (w : World P)
      → Rising 0 w.table.rows w.table.next_id
      → (process_batch P locked b w).0 ≡ ok m
      → Accounted (fetch locked b w.table.rows) 0 m w.table (process_batch P locked b w).1.table
  process_batch-Accounted locked b m w rising h =
      let r = process_batch-Returned locked b m w h in
      let xs = fetch locked b w.table.rows in
      let waits = fetch-Waiting locked b 0 w.table.next_id w.table.rows rising in
      subst (Accounted xs 0 m w.table) (sym r.result) (
        subst (λ t. Accounted xs 0 m t (publish_rows P xs 0 r.entered).1.table) r.table
          (publish_rows-Accounted xs 0 0 m r.entered
            (subst (λ t. Rising 0 t.rows t.next_id) (sym r.table) rising)
            (subst (λ t. Waiting 0 xs t.rows) (sym r.table) waits) r.rows))
