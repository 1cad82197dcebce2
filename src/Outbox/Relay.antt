-- ===== src/Outbox/Relay.antt =====
-- The relay's loop, turn by turn.
use mathlib.Core.Path.{sym, subst}
use message_deduplication_id.Prelude.{
  ℕ, zero, suc, ◌+◌, ◌-◌, ◌*◌, ◌≡◌, ◌⊎◌, inl, inr, refl, ap, ◌∙◌, Bool, true, false, List, [], ◌∷◌,
  arith, String, eqb, Bool-cases,
}
use message_deduplication_id.Prelude.Exec.{exception, Exec, Result, ok, raised, resume-ok}
use message_deduplication_id.Outbox.{
  Row, Services, World, committed, fetch, is_pending, publish_rows, process_batch, as_published,
  as_failed, poll, relay_loop,
}
use message_deduplication_id.Outbox.Writes.{Rising}
use message_deduplication_id.Outbox.Tally.{tally, length-fetch}
use message_deduplication_id.Outbox.Rows.{sent, marked, updated}
use message_deduplication_id.Outbox.Batch.{process_batch-Accounted}

-- Every turn finds the relay running and no row locked.
unfoldable pub turns : ℕ → List (Bool × (ℕ → Bool))
turns zero = []
turns (suc n) = (true, λ _. false) ∷ turns n

module _ (P : Services) where
  -- A send ends, and at worst with an exception that `except Exception` catches; transactions begin,
  -- and statements and commits are done.
  pub record Ends : Type 0 where
    pub at :
        (topic payload key : String) (s : P.State)
        → ((P.send_and_wait topic payload key s).0 ≡ ok tt)
          ⊎ ((name : String) × (message : String) × ((P.send_and_wait topic payload key s).0
                ≡ raised (exception name message)))
    pub begins : (s : P.State) → (P.begin s).0 ≡ ok tt
    pub works : (s : P.State) → (P.statement s).0 ≡ ok tt
    pub commits : (s : P.State) → (P.commit s).0 ≡ committed

  row_returns :
      Ends
      → (x : Row) (xs : List Row) (n : ℕ) (w : World P)
      → (k : ℕ) × (u : World P) × (publish_rows P (x ∷ xs) n w ≡ publish_rows P xs k u)
  unfolding publish_rows
  row_returns d x xs n w =
      let marks = d.works (sent P x w).1 in
      elim (d.at x.topic x.payload x.message_id w.services) [
        | inl e ↦ (n + 1, updated P (as_published w.clock) x (marked P x w).1 w, ground arith)
        | inr (a, b, e) ↦ (n, updated P as_failed x (marked P x w).1 w, ground arith)
      ]

  publish_rows_returns :
      Ends → (xs : List Row) (n : ℕ) (w : World P) → (m : ℕ) × ((publish_rows P xs n w).0 ≡ ok m)
  unfolding publish_rows
  publish_rows_returns d [] n w = (n, refl)
  publish_rows_returns d (x ∷ xs) n w =
      let (k, u, same) = row_returns d x xs n w in
      let (m, h) = publish_rows_returns d xs k u in (m, ap (λ r. r.0) same ∙ h)

  process_batch_returns :
      Ends
      → (locked : ℕ → Bool) (b : ℕ) (w : World P)
      → (m : ℕ) × ((process_batch P locked b w).0 ≡ ok m)
  unfolding process_batch
  process_batch_returns d locked b w =
      let u = record w { services = (P.statement (P.begin w.services).1).1 } in
      let r = publish_rows P (fetch locked b w.table.rows) 0 u in
      let (m, h) = publish_rows_returns d (fetch locked b w.table.rows) 0 u in
      let begun = d.begins w.services in
      let fetched = d.works (P.begin w.services).1 in
      let closed = d.commits r.1.services in (m, ground arith)

  module _ (batch_size : ℕ) (sleep : Exec (World P) Unit) where
    -- The waits end, and nobody writes in them.
    pub record Waits : Type 0 where
      pub ends : (w : World P) → (sleep w).0 ≡ ok tt
      pub same : (w : World P) → (sleep w).1.table ≡ w.table

    poll_quiet :
        (locked : ℕ → Bool) (m : ℕ) (w : World P)
        → Waits
        → (process_batch P locked batch_size w).0 ≡ ok m
        → ((poll P batch_size sleep locked w).0 ≡ ok tt)
          × ((poll P batch_size sleep locked w).1.table
              ≡ (process_batch P locked batch_size w).1.table)
    unfolding poll
    poll_quiet locked m w q h = elim (Bool-cases (eqb m 0)) [
      | inl none_sent ↦
          let u = (process_batch P locked batch_size w).1 in
          (ground (arith, q.ends u), ground (arith, q.ends u, q.same u))
      | inr some_sent ↦ (ground arith, ground arith)
    ]

    record Drained (w : World P) (n : ℕ) (r : Result (Unit {0}) × World P) : Type 0 where
      returned : r.0 ≡ ok tt
      rising : Rising 0 r.1.table.rows r.1.table.next_id
      left : tally is_pending r.1.table.rows ≡ tally is_pending w.table.rows - n

    poll-Drained :
        (w : World P)
        → Ends
        → Waits
        → Rising 0 w.table.rows w.table.next_id
        → Drained w batch_size (poll P batch_size sleep (λ _. false) w)
    poll-Drained w d q rising =
        let (m, h) = process_batch_returns d (λ _. false) batch_size w in
        let a = process_batch-Accounted P (λ _. false) batch_size m w rising h in
        let (returned, same) = poll_quiet (λ _. false) m w q h in
        record {
          returned = returned;
          rising = subst (λ t. Rising 0 t.rows t.next_id) (sym same) a.rising;
          left =
              ap (λ t. tally is_pending t.rows) same
              ∙ omega (arith, a.left, length-fetch batch_size w.table.rows);
        }

    loop-Drained :
        (k : ℕ) (w : World P)
        → Ends
        → Waits
        → Rising 0 w.table.rows w.table.next_id
        → Drained w (k * batch_size) (relay_loop P batch_size sleep (turns k) w)
    unfolding relay_loop turns
    loop-Drained zero w d q rising = record { returned = refl; rising = rising; left = omega arith }
    loop-Drained (suc k) w d q rising =
        let p = poll-Drained w d q rising in
        let rest = loop-Drained k (poll P batch_size sleep (λ _. false) w).1 d q p.rising in
        let same =
          resume-ok (λ _. relay_loop P batch_size sleep (turns k))
            (poll P batch_size sleep (λ _. false) w) tt p.returned in
        record {
          returned = ap (λ r. r.0) same ∙ rest.returned;
          rising = subst (λ r. Rising 0 r.1.table.rows r.1.table.next_id) (sym same) rest.rising;
          left = ap (λ r. tally is_pending r.1.table.rows) same ∙ ground (arith, rest.left, p.left);
        }

    -- Where every send ends, with or without an Exception, the database does what it is asked, and
    -- nobody else locks or writes rows, each turn of the outbox relay takes a full batch off the
    -- PENDING rows: after `k` turns there are `k * batch_size` fewer, or none. The ids of the table
    -- rise.
    pub relay_loop_drains :
        (k : ℕ) (w : World P)
        → Ends
        → Waits
        → Rising 0 w.table.rows w.table.next_id
        → ((relay_loop P batch_size sleep (turns k) w).0 ≡ ok tt)
          × (tally is_pending (relay_loop P batch_size sleep (turns k) w).1.table.rows
              ≡ tally is_pending w.table.rows - k * batch_size)
    relay_loop_drains k w d q rising = let p = loop-Drained k w d q rising in (p.returned, p.left)
