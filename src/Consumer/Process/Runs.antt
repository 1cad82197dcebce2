-- ===== src/Consumer/Process/Runs.antt =====
-- `run` over the records that the broker delivers: how it ends, with a return or at the record whose
-- processing raises.
use mathlib.Core.Path.{subst}
use message_deduplication_id.Prelude.{
  ℕ, suc, ◌+◌, ◌≡◌, refl, ap, sym, inl, inr, Bool, true, false, List, [], ◌∷◌, ◌++◌, length, arith,
  if◌then◌else◌,
}
use message_deduplication_id.Prelude.Exec.{
  Exn, Exec, Result, ok, raised, Result-cases, resume-ok, resume-raised, outcome,
}
use message_deduplication_id.Dedup.{Value}
use message_deduplication_id.Dedup.Store.{Store}
use message_deduplication_id.Consumer.Message.{Codec, ConsumerRecord}
use message_deduplication_id.Consumer.Process.{
  Broker, Consumer, World, Delivery, process_record, run_loop, run,
}
use message_deduplication_id.Consumer.Process.Accounting.{
  CountsCommits, settled, process_record_settles, process_record_uncommitted,
}

-- The records that arrive before the consumer is seen to be stopped.
unfoldable pub delivered : {K : Codec} → List (Delivery K) → ℕ
delivered [] = 0
delivered (raised e ∷ rest) = 0
delivered (ok (running, r) ∷ rest) = let n = delivered rest in if running then suc n else 0

module _ (S : Store) (K : Codec) (B : Broker K) (self : Consumer)
    (handle : Value → Exec S.State Value) (sleep : ℕ → Exec S.State Unit) (strict : Bool)
    (commits : B.State → ℕ) where
  abbrev pub Here : Type 0
  Here = World S K B

  -- Between the two, `n` records were settled: so many outcomes were counted, and so many commits
  -- taken by the broker.
  abbrev pub Settled : ℕ → Here → Here → Type 0
  Settled n w v =
      (settled S K B self handle sleep v ≡ settled S K B self handle sleep w + n)
      × (commits v.broker ≡ commits w.broker + n)

  -- Where a commit that raises was not taken, the broker took `n` commits between the two.
  abbrev pub Committed : Bool → ℕ → Here → Here → Type 0
  Committed true n w v = commits v.broker ≡ commits w.broker + n
  Committed false n w v = Unit {0}

  uncommitted :
      (b : Bool) (w v : Here) → (b ≡ true → commits v.broker ≡ commits w.broker) → Committed b 0 w v
  uncommitted true w v same = omega (arith, same refl)
  uncommitted false w v same = tt

  one_committed :
      (b : Bool) (n : ℕ) (u w v : Here)
      → commits w.broker ≡ commits u.broker + 1
      → Committed b n w v
      → Committed b (suc n) u v
  one_committed true n u w v one h = omega arith
  one_committed false n u w v one h = tt

  -- The delivery at which a run ends with an exception: one that raises it, or a record whose
  -- processing raises it.
  abbrev pub Raises : Delivery K → Here → Exn → Here → Type 0
  Raises (raised x) w e last = (x ≡ e) × (last ≡ w)
  Raises (ok (running, r)) w e last =
      (running ≡ true) × (process_record S K B self handle sleep r w ≡ (raised e, last))

  -- The end of a run by an exception: what was delivered before it, and the world at that point.
  pub record Stopped (rs : List (Delivery K)) (w : Here) (e : Exn) (last : Here) : Type 0 where
    pub before : List (Delivery K)
    pub at : Delivery K
    pub after : List (Delivery K)
    pub records : rs ≡ before ++ (at ∷ after)
    pub entry : Here
    pub counted : Settled (length before) w entry
    pub committed : Committed strict (length before) w last
    pub raises : Raises at entry e last

  abbrev pub Ends : List (Delivery K) → Here → Result (Unit {0}) × Here → Type 0
  Ends rs w (ok tt, last) = Settled (delivered rs) w last
  Ends rs w (raised e, last) = Stopped rs w e last

  one_more :
      (r : ConsumerRecord K) (rs : List (Delivery K)) (w v : Here) (out : Result (Unit {0}) × Here)
      → Settled 1 w v
      → Ends rs v out
      → Ends (ok (true, r) ∷ rs) w out
  unfolding delivered
  one_more r rs w v (ok tt, last) (a, b) (c, d) = (omega arith, omega arith)
  one_more r rs w v (raised e, last) (a, b) x = record {
    before = ok (true, r) ∷ x.before;
    at = x.at;
    after = x.after;
    records = ap (λ z. ok (true, r) ∷ z) x.records;
    entry = x.entry;
    counted = (omega (arith, x.counted), omega (arith, x.counted));
    committed = one_committed strict (length x.before) w v last b x.committed;
    raises = x.raises;
  }

  module _ (C : CountsCommits S K B self handle sleep strict commits)
      (started : self.has_consumer ≡ true) where
    run-run_loop :
        (rs : List (Delivery K)) (w : Here)
        → run S K B self handle sleep rs w ≡ run_loop S K B self handle sleep rs w
    unfolding run
    run-run_loop rs w = ground (arith, started)

    loop-Ends :
        (rs : List (Delivery K)) (w : Here) → Ends rs w (run_loop S K B self handle sleep rs w)
    unfolding run_loop delivered
    loop-Ends [] w = (omega arith, omega arith)
    loop-Ends (raised x ∷ rs) w = record {
      before = [];
      at = raised x;
      after = rs;
      records = refl;
      entry = w;
      counted = (omega arith, omega arith);
      committed = uncommitted strict w w (λ t. refl);
      raises = (refl, refl);
    }
    loop-Ends (ok (false, r) ∷ rs) w = (omega arith, omega arith)
    loop-Ends (ok (true, r) ∷ rs) w =
        let out = process_record S K B self handle sleep r w in
        let later = run_loop S K B self handle sleep rs in
        elim (Result-cases out.0) [
          | inl (tt, e) ↦
              let one =
                process_record_settles S K B self handle sleep strict commits C started r w e in
              subst (Ends (ok (true, r) ∷ rs) w) (sym (resume-ok (λ _. later) out tt e))
                (one_more r rs w out.1 (later out.1) one (loop-Ends rs out.1))
          | inr (x, e) ↦
              subst (Ends (ok (true, r) ∷ rs) w) (sym (resume-raised (λ _. later) out x e))
                (record {
                  before = [];
                  at = ok (true, r);
                  after = rs;
                  records = refl;
                  entry = w;
                  counted = (omega arith, omega arith);
                  committed = uncommitted strict w out.1 (λ t.
                      process_record_uncommitted S K B self handle sleep strict commits C started r
                        w x t e);
                  raises = (refl, outcome out (raised x) out.1 e refl);
                })
        ]

    -- If the run returns, each record that arrived before the stop has been settled, by one outcome
    -- that is counted and one commit that the broker took, and no more. If it raises, the Kafka
    -- client raised that exception where a record was due, or the processing of one record did; each
    -- record before had been settled so, and none after is touched; and where a commit that raises
    -- is not taken (`strict`), there was no other commit. It holds for a consumer that was started,
    -- every store and every `handle`.
    pub run-Ends :
        (rs : List (Delivery K)) (w : Here) → Ends rs w (run S K B self handle sleep rs w)
    run-Ends rs w = subst (Ends rs w) (sym (run-run_loop rs w)) (loop-Ends rs w)

  returned-Settled :
      (rs : List (Delivery K)) (w : Here) (out : Result (Unit {0}) × Here)
      → out.0 ≡ ok tt
      → Ends rs w out
      → Settled (delivered rs) w out.1
  returned-Settled rs w (ok tt, last) h x = x
  returned-Settled rs w (raised e, last) h x = absurd (cc)

  -- A run that returns has settled each record that was delivered to it before it was stopped, and no
  -- more.
  pub run_settles :
      CountsCommits S K B self handle sleep strict commits
      → self.has_consumer ≡ true
      → (rs : List (Delivery K)) (w : Here) → (run S K B self handle sleep rs w).0 ≡ ok tt
      → Settled (delivered rs) w (run S K B self handle sleep rs w).1
  run_settles C started rs w h = returned-Settled rs w _ h (run-Ends C started rs w)
