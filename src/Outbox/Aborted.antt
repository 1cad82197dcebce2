-- ===== src/Outbox/Aborted.antt =====
-- The relay over PostgreSQL, which refuses the later statements of a transaction once one has failed:
-- the exception handler of a row cannot make it FAILED when the statement before it failed.
use mathlib.Core.Path.{sym, subst}
use message_deduplication_id.Prelude.{
  ℕ, ◌+◌, ◌≡◌, ◌≢◌, refl, ap, ◌∙◌, Bool, true, List, [], ◌∷◌, arith, String, length,
}
use message_deduplication_id.Prelude.Exec.{Exn, exception, ok, raised}
use message_deduplication_id.Outbox.{
  Row, Services, World, fetch, as_published, as_failed, publish_rows, process_batch,
}
use message_deduplication_id.Outbox.Writes.{Rising}
use message_deduplication_id.Outbox.Tally.{tally}
use message_deduplication_id.Outbox.Rows.{
  sent, marked, updated, row-Outcome, publishes, unsent, unmarked, ends,
}
use message_deduplication_id.Outbox.Batch.{
  is_failed, process_batch-Returned, process_batch-Accounted,
}

module _ (P : Services) where
  -- After a statement that raised, the transaction is aborted, and a statement of it raises.
  pub record Aborts (aborted : P.State → Bool) : Type 0 where
    pub spoils :
        (s : P.State) (e : Exn) → (P.statement s).0 ≡ raised e → aborted (P.statement s).1 ≡ true
    pub refuses : (s : P.State) → aborted s ≡ true → (P.statement s).0 ≢ ok tt

  -- `refused` counts the sends that raised, and `broken` the statements that did.
  pub record Counts (refused broken : P.State → ℕ) : Type 0 where
    pub sends :
        (t p k : String) (s : P.State)
        → (P.send_and_wait t p k s).0 ≡ ok tt
        → (refused (P.send_and_wait t p k s).1 ≡ refused s)
          × (broken (P.send_and_wait t p k s).1 ≡ broken s)
    pub refuses :
        (t p k : String) (s : P.State) (e : Exn)
        → (P.send_and_wait t p k s).0 ≡ raised e
        → (refused (P.send_and_wait t p k s).1 ≡ refused s + 1)
          × (broken (P.send_and_wait t p k s).1 ≡ broken s)
    pub works :
        (s : P.State)
        → (P.statement s).0 ≡ ok tt
        → (refused (P.statement s).1 ≡ refused s) × (broken (P.statement s).1 ≡ broken s)
    pub begins :
        (s : P.State) → (refused (P.begin s).1 ≡ refused s) × (broken (P.begin s).1 ≡ broken s)
    pub commits :
        (s : P.State) → (refused (P.commit s).1 ≡ refused s) × (broken (P.commit s).1 ≡ broken s)

  module _ (aborted : P.State → Bool) (refused broken : P.State → ℕ) (a : Aborts aborted)
      (c : Counts refused broken) where
    -- Of the rows, all but `m - n` were refused, and no statement failed.
    abbrev Tells : List Row → ℕ → ℕ → P.State → P.State → Type 0
    Tells xs n m s t = (refused t + m ≡ refused s + n + length xs) × (broken t ≡ broken s)

    publish_rows-Tells :
        (xs : List Row) (n m : ℕ) (w : World P)
        → (publish_rows P xs n w).0 ≡ ok m
        → Tells xs n m w.services (publish_rows P xs n w).1.services
    unfolding publish_rows
    publish_rows-Tells [] n m w h = let same : n ≡ m = cc in (omega arith, refl)
    publish_rows-Tells (x ∷ xs) n m w h = elim (row-Outcome P x xs n w) [
      | publishes e f same ↦
          let u = updated P (as_published w.clock) x (marked P x w).1 w in
          let rest = publish_rows-Tells xs (n + 1) m u (ap (λ r. r.0) (sym same) ∙ h) in
          let went = c.sends x.topic x.payload x.message_id w.services e in
          let stated = c.works (sent P x w).1 f in
          subst (λ r. Tells (x ∷ xs) n m w.services r.1.services) (sym same)
            (omega arith, omega arith)
      | unsent name message e f same ↦
          let u = updated P as_failed x (marked P x w).1 w in
          let rest = publish_rows-Tells xs n m u (ap (λ r. r.0) (sym same) ∙ h) in
          let went =
            c.refuses x.topic x.payload x.message_id w.services (exception name message) e in
          let stated = c.works (sent P x w).1 f in
          subst (λ r. Tells (x ∷ xs) n m w.services r.1.services) (sym same)
            (omega arith, omega arith)
      | unmarked name message e f g same ↦
          absurd (a.refuses (marked P x w).1 (a.spoils (sent P x w).1 (exception name message) f) g)
      | ends e raises ↦ absurd (ground arith)
    ]

    -- Over a database that refuses the later statements of a transaction once one has failed: a
    -- batch of the outbox relay that returns had no statement that failed, and made as many rows
    -- FAILED as sends were refused. So where the statement that makes a sent row PUBLISHED fails,
    -- the row is not made FAILED: the batch raises. The ids of the table rise.
    pub process_batch-Aborts :
        (locked : ℕ → Bool) (b m : ℕ) (w : World P)
        → Rising 0 w.table.rows w.table.next_id
        → (process_batch P locked b w).0 ≡ ok m
        → (broken (process_batch P locked b w).1.services ≡ broken w.services)
          × (tally is_failed (process_batch P locked b w).1.table.rows + refused w.services
              ≡ tally is_failed w.table.rows + refused (process_batch P locked b w).1.services)
    process_batch-Aborts locked b m w rising h =
        let r = process_batch-Returned P locked b m w h in
        let xs = fetch locked b w.table.rows in
        let d = process_batch-Accounted P locked b m w rising h in
        let v = (publish_rows P xs 0 r.entered).1.services in
        let tells = publish_rows-Tells xs 0 m r.entered r.rows in
        let begun = c.begins w.services in
        let selected = c.works (P.begin w.services).1 r.selects in
        let closed = c.commits v in
        let ended_refused = ap refused r.closes in
        let ended_broken = ap broken r.closes in
        let entered_refused = ap refused r.services in
        let entered_broken = ap broken r.services in (omega arith, omega (arith, d.lost))
