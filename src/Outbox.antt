-- ===== src/Outbox.antt =====
-- src/idempotency/outbox.py, with the meaning of its SQL statements over the table of
-- scripts/init_db.sql. Each statement, the commit and `send_and_wait` may fail.
pub mod Writes
pub mod Tally
pub mod Rows
pub mod Batch
pub mod Aborted
pub mod Relay
pub mod Running
use message_deduplication_id.Prelude.{
  ℕ, suc, ◌+◌, ◌-◌, String, Bool, true, false, not, ◌&&◌, ◌||◌, Option, none, some, List, [], ◌∷◌,
  ◌++◌, ◌==◌, eqb, leb, length, if◌then◌else◌,
}
use message_deduplication_id.Prelude.Exec.{
  Exn, Exec, Result, ok, raised, pure, raise, ◌>>=◌, ◌>>◌, try_except,
}
use message_deduplication_id.Dedup.{Value}

pub data Status : Type 0 where
  pending published failed : Status

pub record Row : Type 0 where
  pub id : ℕ
  pub topic : String
  pub message_id : String
  pub payload : String
  pub status : Status
  pub created_at : ℕ
  pub published_at : Option ℕ

-- The rows stand in the order of their ids; `next_id` is the sequence of the BIGSERIAL column.
pub record Table : Type 0 where
  pub rows : List Row
  pub next_id : ℕ

pub record OutboxEntry : Type 0 where
  pub topic : String
  pub message_id : String
  pub payload : Value
  pub created_at : ℕ

-- `model_post_init`: an entry that is built without a date takes the current one.
unfoldable pub new_entry : ℕ → String → String → Value → Option ℕ → OutboxEntry
new_entry now topic message_id payload created_at = record {
  topic = topic;
  message_id = message_id;
  payload = payload;
  created_at = elim created_at [ none ↦ now | some t ↦ t ];
}

abbrev pub is_pending : Status → Bool
is_pending pending = true
is_pending _ = false

unfoldable pub has_message : String → List Row → Bool
has_message m [] = false
has_message m (row ∷ rows) = m == row.message_id || has_message m rows

-- INSERT … ON CONFLICT (message_id) DO NOTHING. The sequence moves on a conflict too.
unfoldable pub insert : OutboxEntry → String → Table → Table
insert e payload t =
    if has_message e.message_id t.rows
    then record t { next_id = t.next_id + 1 }
    else record t { rows = t.rows ++ (new_row ∷ []); next_id = t.next_id + 1 }
  where
    new_row : Row
    new_row = record {
      id = t.next_id;
      topic = e.topic;
      message_id = e.message_id;
      payload = payload;
      status = pending;
      created_at = e.created_at;
      published_at = none;
    }

-- SELECT … WHERE status = 'PENDING' ORDER BY id LIMIT n FOR UPDATE SKIP LOCKED. `locked` says which
-- rows another transaction holds.
unfoldable pub fetch : (ℕ → Bool) → ℕ → List Row → List Row
fetch locked n [] = []
fetch locked n (row ∷ rows) =
    let free = is_pending row.status && not (locked row.id) in
    let rest = fetch locked (if free then n - 1 else n) rows in
    if leb n 0 then [] else if free then row ∷ rest else rest

-- UPDATE outbox SET … WHERE id = …
unfoldable pub update : ℕ → (Row → Row) → List Row → List Row
update id f [] = []
update id f (row ∷ rows) = (if eqb row.id id then f row else row) ∷ update id f rows

abbrev pub as_published : ℕ → Row → Row
as_published now row = record row { status = published; published_at = some now }

abbrev pub as_failed : Row → Row
as_failed row = record row { status = failed }

abbrev pub on_rows : (List Row → List Row) → Table → Table
on_rows f t = record t { rows = f t.rows }

-- What becomes of a COMMIT: it is answered; it fails, and the rows are as they were; or it is done, and
-- its answer is lost.
pub data Ending : Type 0 where
  committed : Ending
  undone unanswered : Exn → Ending

-- The producer's `send_and_wait(topic, value, key)`, and the connection: what becomes of a statement,
-- and of the beginning and the end of a transaction. BEGIN stands for `acquire` too.
pub record Services : Type 1 where
  pub State : Type 0
  pub send_and_wait : String → String → String → Exec State Unit
  pub begin : Exec State Unit
  pub statement : Exec State Unit
  pub commit : State → Ending × State
  pub rollback : Exec State Unit

module _ (P : Services) where
  -- `clock` is what `datetime.now(UTC)` reads.
  pub record World : Type 0 where
    pub table : Table
    pub services : P.State
    pub clock : ℕ

  abbrev pub call : {A : Type 0} → Exec P.State A → Exec World A
  call m w = let (r, s) = m w.services in (r, record w { services = s })

  -- `conn.execute`: a statement that fails changes no row.
  abbrev pub execute : (Table → Table) → Exec World Unit
  execute f = call P.statement >> λ w. (ok tt, record w { table = f w.table })

  -- `json.dumps` may refuse the payload, and then nothing is written.
  unfoldable pub write : (Value → Result String) → OutboxEntry → Exec World Unit
  write dumps e w = elim (dumps e.payload) [
    | ok payload ↦ execute (insert e payload) w
    | raised x ↦ (raised x, w)
  ]

  abbrev pub send : Row → Exec World Unit
  send row = call (P.send_and_wait row.topic row.payload row.message_id)

  mark_published : Row → Exec World Unit
  mark_published row w = execute (on_rows (update row.id (as_published w.clock))) w

  mark_failed : Row → Exec World Unit
  mark_failed row = execute (on_rows (update row.id as_failed))

  -- The loop over the rows; `n` is `published`.
  unfoldable pub publish_rows : List Row → ℕ → Exec World ℕ
  unfolding mark_published mark_failed
  publish_rows [] n = pure n
  publish_rows (row ∷ rows) n =
      try_except (send row >> mark_published row) (λ exc. mark_failed row >> publish_rows rows n)
        (λ _. publish_rows rows (n + 1))

  -- `conn.fetch`
  abbrev pub select : (ℕ → Bool) → ℕ → Exec World (List Row)
  select locked n = call P.statement >> λ w. (ok (fetch locked n w.table.rows), w)

  abbrev pub ended : {A : Type 0} → Table → A → Ending → World → Result A × World
  ended old a committed w = (ok a, w)
  ended old a (undone e) w = (raised e, record w { table = old })
  ended old a (unanswered e) w = (raised e, w)

  -- `conn.transaction()`: an exception undoes what was written, but not what was sent. An exception of
  -- the rollback takes its place.
  abbrev pub commit_or_undo : {A : Type 0} → Table → Result A × World → Result A × World
  commit_or_undo old (ok a, w) =
      let (x, s) = P.commit w.services in ended old a x (record w { services = s })
  commit_or_undo old (raised e, w) = (call P.rollback >> raise e) (record w { table = old })

  abbrev pub transaction : {A : Type 0} → Exec World A → Exec World A
  transaction m = call P.begin >> λ w. commit_or_undo w.table (m w)

  unfoldable pub process_batch : (ℕ → Bool) → ℕ → Exec World ℕ
  process_batch locked batch_size =
      transaction (select locked batch_size >>= λ rows. publish_rows rows 0)

  -- `_loop` of the relay. `sleep` is the wait of the poll interval, in which others may write; its
  -- exceptions are caught only after a batch that returned.
  module _ (batch_size : ℕ) (sleep : Exec World Unit) where
    unfoldable pub poll : (ℕ → Bool) → Exec World Unit
    poll locked =
        try_except
          (process_batch locked batch_size >>= λ published.
            if eqb published 0 then sleep else pure tt)
          (λ exc. sleep) (λ _. pure tt)

    -- Each turn has `self._running` at its beginning, and the rows that are locked in it.
    unfoldable pub relay_loop : List (Bool × (ℕ → Bool)) → Exec World Unit
    relay_loop [] = pure tt
    relay_loop ((running, locked) ∷ turns) =
        let later = relay_loop turns in if running then poll locked >> later else pure tt
