-- ===== src/Outbox/Rows.antt =====
-- What becomes of one row of a batch: the send, the statement that marks the row, and the statement of
-- the exception handler.
use message_deduplication_id.Prelude.{ℕ, ◌+◌, ◌≡◌, refl, List, ◌∷◌, arith, String}
use message_deduplication_id.Prelude.Exec.{Exn, exception, base_exception, Result, ok, raised}
use message_deduplication_id.Outbox.{
  Row, Services, World, update, on_rows, as_published, as_failed, publish_rows,
}

data Sort (r : Result (Unit {0})) : Type 0 where
  fine : r ≡ ok tt → Sort r
  failing : (name message : String) → r ≡ raised (exception name message) → Sort r
  stopping : (name message : String) → r ≡ raised (base_exception name message) → Sort r

sort : (r : Result (Unit {0})) → Sort r
sort (ok tt) = fine refl
sort (raised (exception a b)) = failing a b refl
sort (raised (base_exception a b)) = stopping a b refl

module _ (P : Services) where
  abbrev pub sent : Row → World P → Result (Unit {0}) × P.State
  sent x w = P.send_and_wait x.topic x.payload x.message_id w.services

  -- The statement after the send, and the one after that.
  abbrev pub marked : Row → World P → Result (Unit {0}) × P.State
  marked x w = P.statement (sent x w).1

  abbrev pub marked_again : Row → World P → Result (Unit {0}) × P.State
  marked_again x w = P.statement (marked x w).1

  abbrev pub updated : (Row → Row) → Row → P.State → World P → World P
  updated f x s w = record w { services = s; table = on_rows (update x.id f) w.table }

  -- The row is sent and PUBLISHED; the send raises an Exception and the row is FAILED; it is sent, the
  -- statement that makes it PUBLISHED raises an Exception, and the row is FAILED; or the batch ends.
  pub data Outcome (x : Row) (xs : List Row) (n : ℕ) (w : World P) : Type 0 where
    publishes :
        (sent x w).0 ≡ ok tt
        → (marked x w).0 ≡ ok tt
        → publish_rows P (x ∷ xs) n w
          ≡ publish_rows P xs (n + 1) (updated (as_published w.clock) x (marked x w).1 w)
        → Outcome x xs n w
    unsent :
        (name message : String)
        → (sent x w).0 ≡ raised (exception name message)
        → (marked x w).0 ≡ ok tt
        → publish_rows P (x ∷ xs) n w ≡ publish_rows P xs n (updated as_failed x (marked x w).1 w)
        → Outcome x xs n w
    unmarked :
        (name message : String)
        → (sent x w).0 ≡ ok tt
        → (marked x w).0 ≡ raised (exception name message)
        → (marked_again x w).0 ≡ ok tt
        → publish_rows P (x ∷ xs) n w
          ≡ publish_rows P xs n (updated as_failed x (marked_again x w).1 w)
        → Outcome x xs n w
    ends : (e : Exn) → (publish_rows P (x ∷ xs) n w).0 ≡ raised e → Outcome x xs n w

  module _ (x : Row) (xs : List Row) (n : ℕ) (w : World P) where
    unsent-Outcome :
        (name message : String) → (sent x w).0 ≡ raised (exception name message) → Outcome x xs n w
    unfolding publish_rows
    unsent-Outcome name message e = elim (sort (marked x w).0) [
      | fine f ↦ unsent name message e f (ground arith)
      | failing a b f ↦ ends (exception a b) (ground arith)
      | stopping a b f ↦ ends (base_exception a b) (ground arith)
    ]

    unmarked-Outcome :
        (name message : String)
        → (sent x w).0 ≡ ok tt
        → (marked x w).0 ≡ raised (exception name message)
        → Outcome x xs n w
    unfolding publish_rows
    unmarked-Outcome name message e f = elim (sort (marked_again x w).0) [
      | fine g ↦ unmarked name message e f g (ground arith)
      | failing a b g ↦ ends (exception a b) (ground arith)
      | stopping a b g ↦ ends (base_exception a b) (ground arith)
    ]

    pub row-Outcome : Outcome x xs n w
    unfolding publish_rows
    row-Outcome = elim (sort (sent x w).0) [
      | failing a b e ↦ unsent-Outcome a b e
      | stopping a b e ↦ ends (base_exception a b) (ground arith)
      | fine e ↦ elim (sort (marked x w).0) [
        | fine f ↦ publishes e f (ground arith)
        | failing a b f ↦ unmarked-Outcome a b e f
        | stopping a b f ↦ ends (base_exception a b) (ground arith)
      ]
    ]
