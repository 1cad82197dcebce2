-- ===== src/Tests/Outboxes.antt =====
-- Runs of the outbox, and the theorems on it at concrete inputs.
use message_deduplication_id.Prelude.{
  ℕ, String, ◌+◌, ◌-◌, ◌||◌, Bool, true, eqb, ◌≡◌, refl, false, none, [], arith, string_discrete,
  ◌==◌, inl, inr, Bool-cases, if◌then◌else◌,
}
use message_deduplication_id.Prelude.Exec.{
  exception, base_exception, Exec, Result, ok, raised, pure,
}
use message_deduplication_id.Dedup.{null}
use message_deduplication_id.Outbox.{
  Table, OutboxEntry, Services, committed, World, has_message, insert, fetch, publish_rows,
  process_batch, new_entry, relay_loop, is_pending,
}
use message_deduplication_id.Outbox.Tally.{tally}
use message_deduplication_id.Outbox.Aborted.{Aborts, Counts, process_batch-Aborts}
use message_deduplication_id.Outbox.Batch.{
  is_failed, Accounted, process_batch_raised, process_batch-Accounted,
}
use message_deduplication_id.Outbox.Relay.{turns, Ends, relay_loop_drains}

entry : String → OutboxEntry
entry m = new_entry 5 "orders" m null none

no_rows : Table
no_rows = record { rows = []; next_id = 1 }

one_row : Table
one_row = insert (entry "a") "{}" no_rows

-- It is cancelled in the send of the message "b", and counts what it sent.
cancelled_at_b : Services
cancelled_at_b = record {
  State = ℕ;
  send_and_wait = λ topic payload key n.
      if key == "b" then (raised (base_exception "CancelledError" ""), n) else (ok tt, n + 1);
  begin = pure tt;
  statement = pure tt;
  commit = λ n. (committed, n);
  rollback = pure tt;
}

two_rows : World cancelled_at_b
unfolding cancelled_at_b
two_rows = record { table = insert (entry "b") "{}" one_row; services = 0; clock = 9 }

process_batch_raised_example :
    (process_batch cancelled_at_b (λ _. false) 10 two_rows).1.table ≡ two_rows.table
unfolding two_rows one_row no_rows entry cancelled_at_b process_batch publish_rows insert fetch
    has_message string_discrete new_entry
process_batch_raised_example =
    process_batch_raised cancelled_at_b (λ _. false) 10 (base_exception "CancelledError" "")
      two_rows (λ s e h. cc) refl

-- It refuses the message "b".
refuses_b : Services
refuses_b = record {
  State = ℕ;
  send_and_wait = λ topic payload key n.
      if key == "b" then (raised (exception "KafkaError" ""), n) else (ok tt, n + 1);
  begin = pure tt;
  statement = pure tt;
  commit = λ n. (committed, n);
  rollback = pure tt;
}

waiting_rows : World refuses_b
unfolding refuses_b
waiting_rows = record { table = insert (entry "b") "{}" one_row; services = 0; clock = 9 }

process_batch-Accounted_example :
    Accounted
      (fetch (λ _. false) 10 waiting_rows.table.rows)
      0
      1
      waiting_rows.table
      (process_batch refuses_b (λ _. false) 10 waiting_rows).1.table
unfolding waiting_rows one_row no_rows entry refuses_b process_batch publish_rows insert has_message
    string_discrete new_entry fetch
process_batch-Accounted_example =
    process_batch-Accounted refuses_b (λ _. false) 10 1 waiting_rows
      (omega arith, (omega arith, omega arith)) refl

does_not_wait : Exec (World refuses_b) Unit
does_not_wait w = (ok tt, w)

refuses_b_ends : Ends refuses_b
unfolding refuses_b
refuses_b_ends = record {
  at = λ t p k n. elim (Bool-cases (k == "b")) [
    | inl e ↦ inr ("KafkaError", "", ground arith)
    | inr e ↦ inl (ground arith)
  ];
  begins = λ s. refl;
  works = λ s. refl;
  commits = λ s. refl;
}

relay_loop_drains_example :
    ((relay_loop refuses_b 1 does_not_wait (turns 2) waiting_rows).0 ≡ ok tt)
    × (tally is_pending (relay_loop refuses_b 1 does_not_wait (turns 2) waiting_rows).1.table.rows
        ≡ 0)
unfolding waiting_rows one_row no_rows entry insert does_not_wait tally has_message string_discrete
    new_entry
relay_loop_drains_example =
    relay_loop_drains refuses_b 1 does_not_wait 2 waiting_rows refuses_b_ends
      (record { ends = λ w. refl; same = λ w. refl }) (omega arith, (omega arith, omega arith))

-- A database that executes so many statements, and then fails the transaction.
record Link : Type 0 where
  budget : ℕ
  aborted : Bool
  refused : ℕ
  broken : ℕ

state : Link → Result (Unit {0}) × Link
state s =
    if s.aborted || eqb s.budget 0
    then (
      raised (exception "InFailedSQLTransactionError" ""),
      record s { aborted = true; broken = s.broken + 1 },
    )
    else (ok tt, record s { budget = s.budget - 1 })

post : String → Link → Result (Unit {0}) × Link
post key s =
    if key == "b"
    then (raised (exception "KafkaError" ""), record s { refused = s.refused + 1 })
    else (ok tt, s)

abbrev limited : Services
limited = record {
  State = Link;
  send_and_wait = λ topic payload key. post key;
  begin = pure tt;
  statement = state;
  commit = λ s. (committed, s);
  rollback = pure tt;
}

limited-Aborts : Aborts limited (λ s. s.aborted)
unfolding state
limited-Aborts = record { spoils = λ s e h. ground arith; refuses = λ s h e. absurd (ground arith) }

limited-Counts : Counts limited (λ s. s.refused) (λ s. s.broken)
unfolding state post
limited-Counts = record {
  sends = λ t p k s h. (ground arith, ground arith);
  refuses = λ t p k s e h. (ground arith, ground arith);
  works = λ s h. (ground arith, ground arith);
  begins = λ s. (refl, refl);
  commits = λ s. (refl, refl);
}

limited_rows : World limited
limited_rows = record {
  table = insert (entry "b") "{}" one_row;
  services = record { budget = 9; aborted = false; refused = 0; broken = 0 };
  clock = 9;
}

process_batch-Aborts_example :
    (Link.broken (process_batch limited (λ _. false) 10 limited_rows).1.services ≡ 0)
    × (tally is_failed (process_batch limited (λ _. false) 10 limited_rows).1.table.rows + 0
        ≡ 0 + Link.refused (process_batch limited (λ _. false) 10 limited_rows).1.services)
unfolding limited_rows one_row no_rows entry state post process_batch publish_rows insert
    has_message string_discrete new_entry fetch tally
process_batch-Aborts_example =
    process_batch-Aborts limited (λ s. s.aborted) (λ s. s.refused) (λ s. s.broken) limited-Aborts
      limited-Counts (λ _. false) 10 1 limited_rows (omega arith, (omega arith, omega arith)) refl
