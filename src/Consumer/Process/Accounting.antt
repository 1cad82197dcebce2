-- ===== src/Consumer/Process/Accounting.antt =====
-- The outcomes in the metrics and the commits at the broker, for each record that was processed.
use message_deduplication_id.Prelude.{
  ℕ, ◌+◌, String, ◌≡◌, refl, Bool, true, false, Option, arith, Bool-cases, Option-cases, inl, inr,
  string_discrete,
}
use message_deduplication_id.Prelude.Exec.{Exn, Exec, ok, raised}
use message_deduplication_id.Prelude.Exec.Gives.{
  Keeps, Keeps-bind, Gives, Gives-after, Gives-and, Gives-before,
}
use message_deduplication_id.Dedup.{Value, ProcessingStatus}
use message_deduplication_id.Dedup.Store.{Store}
use message_deduplication_id.Metrics.{
  Metrics, record_processed, record_no_message_id, record_dlq, record_retry, record_error,
  record_duplicate, record_claim_lost, rise, outcomes,
}
use message_deduplication_id.Consumer.Message.{Codec, ConsumerRecord}
use message_deduplication_id.Consumer.Process.{
  Broker, Consumer, World, timed, measure, non_empty_text, commit, send_to_dlq, give_up, skip,
  skip_counter, in_flight, process_record, error_text, dlq_payload,
}
use message_deduplication_id.Consumer.Process.Settles.{Settling, process_record-Gives}

module _ (S : Store) (K : Codec) (B : Broker K) (self : Consumer)
    (handle : Value → Exec S.State Value) (sleep : ℕ → Exec S.State Unit) where
  -- How many messages have had an outcome.
  abbrev pub settled : World S K B → ℕ
  settled w = outcomes w.metrics.increments

  commit-settled : Keeps settled (commit S K B self handle sleep)
  unfolding commit
  commit-settled = record { at = λ w. ground arith }

  send-settled :
      (r : ConsumerRecord K) (e : String) → Keeps settled (send_to_dlq S K B self handle sleep r e)
  unfolding send_to_dlq
  send-settled r e = record { at = λ w. ground arith }

  dlq-settled : (t : String) → Gives false settled 1 (measure S K B (record_dlq t))
  unfolding record_dlq outcomes string_discrete
  dlq-settled t = record { at = λ w a h. omega arith; back = λ t w e h. absurd (cc) }

  processed-settled : (t : String) → Gives false settled 1 (measure S K B (record_processed t))
  unfolding record_processed outcomes string_discrete
  processed-settled t = record { at = λ w a h. omega arith; back = λ t w e h. absurd (cc) }

  skip_counter-settled :
      (r : ConsumerRecord K) (q : Option ProcessingStatus)
      → Gives false settled 1 (measure S K B (skip_counter S K B self handle sleep r q))
  unfolding record_claim_lost record_duplicate outcomes string_discrete
  skip_counter-settled r q = elim (Bool-cases (in_flight S K B self handle sleep q)) [
    | inl e ↦ record { at = λ w a h. rw e (omega arith); back = λ t w x h. absurd (cc) }
    | inr e ↦ record { at = λ w a h. rw e (omega arith); back = λ t w x h. absurd (cc) }
  ]

  give_up-settled :
      (r : ConsumerRecord K) (l : Option Exn)
      → Gives false settled 1 (give_up S K B self handle sleep r l)
  unfolding give_up
  give_up-settled r l = Gives-and settled (dlq-settled r.topic) (λ _.
      Keeps-bind settled (send-settled r (error_text S K B self handle sleep l))
        (λ _. commit-settled))

  skip-settled :
      (r : ConsumerRecord K) (id : String)
      → Gives false settled 1 (skip S K B self handle sleep r id)
  unfolding skip
  skip-settled r id =
      Gives-after false settled {m = timed S K B "get_status" (S.get_status id)}
        (record { at = λ w. refl })
        (λ q. Gives-and settled (skip_counter-settled r q) (λ _. commit-settled))

  pub settled-Settling : Settling S K B self handle sleep false settled
  unfolding record_no_message_id record_retry record_error outcomes string_discrete
  settled-Settling = record {
    store = λ m. record { at = λ w. refl };
    timed = λ o m. record { at = λ w. refl };
    no_id = λ t. record { at = λ w. refl };
    retry = λ t. record { at = λ w. refl };
    error = λ t e. record { at = λ w. refl };
    begins = λ t. record { at = λ w. refl };
    ends = λ t g. record { at = g.at; back = g.back };
    lift = λ x. record { at = λ w. refl };
    finished = λ t. Gives-after false settled commit-settled (λ _. processed-settled t);
    dropped = give_up-settled;
    skipped = skip-settled;
  }

  -- `commits` counts the commits that the broker took, and nothing else changes it. Where `strict`, a
  -- commit that raises was not taken.
  pub record CountsCommits (strict : Bool) (commits : B.State → ℕ) : Type 0 where
    pub taken : Gives strict commits 1 B.commit
    pub sent : (t : String) (v : Value) (k : Option K.Bytes) → Keeps commits (B.send_and_wait t v k)

  module _ (strict : Bool) (commits : B.State → ℕ) (C : CountsCommits strict commits)
      (started : self.has_consumer ≡ true) where
    abbrev pub committed : World S K B → ℕ
    committed w = commits w.broker

    commit-committed : Gives strict committed 1 (commit S K B self handle sleep)
    unfolding commit
    commit-committed = rw started (record {
      at = λ w a h. C.taken.at w.broker a h;
      back = λ t w e h. C.taken.back t w.broker e h;
    })

    measure-committed : (f : Metrics → Metrics) → Keeps committed (measure S K B f)
    measure-committed f = record { at = λ w. refl }

    send-committed :
        (r : ConsumerRecord K) (e : String)
        → Keeps committed (send_to_dlq S K B self handle sleep r e)
    unfolding send_to_dlq
    send-committed r e = record {
      at = λ w. elim (Option-cases (non_empty_text S K B self.dlq_topic)) [
        | inl none_set ↦ ground arith
        | inr (t, set) ↦
            ground (arith, (C.sent t (dlq_payload S K B self handle sleep r e) r.key).at w.broker)
      ];
    }

    give_up-committed :
        (r : ConsumerRecord K) (l : Option Exn)
        → Gives strict committed 1 (give_up S K B self handle sleep r l)
    unfolding give_up
    give_up-committed r l =
        Gives-after strict committed (measure-committed (record_dlq r.topic)) (λ _.
          Gives-after strict committed (send-committed r (error_text S K B self handle sleep l))
            (λ _. commit-committed))

    skip-committed :
        (r : ConsumerRecord K) (id : String)
        → Gives strict committed 1 (skip S K B self handle sleep r id)
    unfolding skip
    skip-committed r id =
        Gives-after strict committed {m = timed S K B "get_status" (S.get_status id)}
          (record { at = λ w. refl })
          (λ q.
            Gives-after strict committed
              (measure-committed (skip_counter S K B self handle sleep r q))
              (λ _. commit-committed))

    pub committed-Settling : Settling S K B self handle sleep strict committed
    committed-Settling = record {
      store = λ m. record { at = λ w. refl };
      timed = λ o m. record { at = λ w. refl };
      no_id = λ t. measure-committed (record_no_message_id t);
      retry = λ t. measure-committed (record_retry t);
      error = λ t e. measure-committed (record_error t e);
      begins = λ t. measure-committed (rise t);
      ends = λ t g. record { at = g.at; back = g.back };
      lift = λ x. record { at = λ w. refl };
      finished = λ t.
          Gives-before strict committed (λ w. record w { metrics = record_processed t w.metrics })
            (λ w. refl) commit-committed;
      dropped = give_up-committed;
      skipped = skip-committed;
    }

    -- A record whose processing returns is settled once: exactly one of its outcomes (processed,
    -- duplicate, claim_lost or dlq) is counted, and the broker has taken exactly one commit. It holds
    -- for every store and every `handle`, also where they raise.
    pub process_record_settles :
        (r : ConsumerRecord K) (w : World S K B)
        → (process_record S K B self handle sleep r w).0 ≡ ok tt
        → (settled (process_record S K B self handle sleep r w).1 ≡ settled w + 1)
          × (committed (process_record S K B self handle sleep r w).1 ≡ committed w + 1)
    process_record_settles r w returned = (
      (process_record-Gives S K B self handle sleep false settled settled-Settling r).at w tt
          returned,
      (process_record-Gives S K B self handle sleep strict committed committed-Settling r).at w tt
          returned,
    )

    -- A record whose processing raises is not committed.
    pub process_record_uncommitted :
        (r : ConsumerRecord K) (w : World S K B) (e : Exn)
        → strict ≡ true
        → (process_record S K B self handle sleep r w).0 ≡ raised e
        → committed (process_record S K B self handle sleep r w).1 ≡ committed w
    process_record_uncommitted r w e exact h =
        (process_record-Gives S K B self handle sleep strict committed committed-Settling r).back
          exact w e h
