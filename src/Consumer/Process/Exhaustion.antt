-- ===== src/Consumer/Process/Exhaustion.antt =====
-- A message whose `handle` fails at every attempt, over a store that keeps its contract.
use message_deduplication_id.Prelude.{
  ℕ, zero, suc, ◌+◌, ◌*◌, ◌≤◌, ◌<◌, String, ◌≡◌, ◌≢◌, refl, ap, ◌∙◌, true, Option, some, arith,
}
use message_deduplication_id.Prelude.Exec.{
  Exn, exception, Result, ok, raised, Exec, exn_name, exn_message,
}
use message_deduplication_id.Dedup.{Value}
use message_deduplication_id.Dedup.Lifecycle.{running, broken, claimable, spec_fail}
use message_deduplication_id.Dedup.Store.{Store, Contract}
use message_deduplication_id.Idempotency.Guard.Laws.{view-won, Leaves}
use message_deduplication_id.Metrics.{Metrics, record_retry, record_error, observe_store_op}
use message_deduplication_id.Consumer.Message.{Codec, ConsumerRecord}
use message_deduplication_id.Consumer.Process.{
  Broker, Consumer, World, give_up, mark, reclaim, back_off, failed_attempt, attempt_loop,
}

module _ (S : Store) (C : Contract S) (K : Codec) (B : Broker K) (self : Consumer)
    (handle : Value → Exec S.State Value) (sleep : ℕ → Exec S.State Unit) (r : ConsumerRecord K)
    (id : String) (p : Value) where
  abbrev Quiet : S.State → S.State → Type 0
  Quiet = Leaves S C id

  -- Every attempt raises an exception, and neither it nor a wait touches this message.
  pub record Fails : Type 0 where
    pub attempt :
        (s : S.State)
        → C.Up s
        → (name : String) × (message : String) × (t : S.State) × (handle p s
            ≡ (raised (exception name message), t))
          × Quiet s t
    pub wait :
        (ms : ℕ) (s : S.State) → C.Up s → (t : S.State) × (sleep ms s ≡ (ok tt, t)) × Quiet s t

  -- The store is set up with the consumer's limits, and retries failures.
  pub record Tries (s : S.State) : Type 0 where
    pub limit : (C.rules s).max_retries ≡ self.config.max_retries
    pub retries : (C.rules s).retry_failed ≡ true

  -- The loop ended in the dead letter branch, from `last`: the record is FAILED there with all
  -- attempts used, by `mark_failed` with the text of the exception that the last attempt raised, from
  -- `entry`; and nothing has reached the broker.
  pub record Spent (w : World S K B) (ended : Result (Unit {0}) × World S K B) : Type 0 where
    pub name : String
    pub message : String
    pub last : World S K B
    pub broker : last.broker ≡ w.broker
    pub up : C.Up last.store
    pub tries : Tries last.store
    pub spent : C.view last.store id ≡ some (broken self.config.max_retries)
    pub entry : S.State
    pub after : S.State
    pub attempt : handle p entry ≡ (raised (exception name message), after)
    pub marked : last.store ≡ (S.mark_failed id message self.config.max_retries after).1
    pub gives_up : ended ≡ give_up S K B self handle sleep r (some (exception name message)) last

  abbrev pub loop : ℕ → ℕ → Option Exn → Exec (World S K B) Unit
  loop fuel attempts l = attempt_loop S K B self handle sleep fuel r (some id) p attempts l

  pub loop-over :
      (fuel attempts : ℕ) (e : Exn) (w : World S K B)
      → self.config.max_retries < attempts
      → loop fuel attempts (some e) w ≡ give_up S K B self handle sleep r (some e) w
  unfolding attempt_loop
  loop-over zero attempts e w h = refl
  loop-over (suc fuel) attempts e w h = ground arith

  abbrev pub failing : ℕ → Exn → Exec (World S K B) Unit → Exec (World S K B) Unit
  failing attempts e next = failed_attempt S K B self handle sleep r (some id) attempts e next

  pub loop-raised :
      (fuel attempts : ℕ) (l : Option Exn) (name message : String) (w : World S K B) (t : S.State)
      → attempts ≤ self.config.max_retries
      → handle p w.store ≡ (raised (exception name message), t)
      → loop (suc fuel) attempts l w
        ≡ failing attempts
            (exception name message)
            (loop fuel (attempts + 1) (some (exception name message)))
            (record w { store = t })
  unfolding attempt_loop
  loop-raised fuel attempts l name message w t le h = ground arith

  -- the counts and timings of an attempt that fails and is followed by another
  abbrev pub retried : Exn → Metrics → Metrics
  retried e m =
      observe_store_op "claim" (
        record_retry r.topic (observe_store_op "mark_failed" (record_error r.topic (exn_name e) m)))

  pub failing-last :
      (attempts : ℕ) (e : Exn) (next : Exec (World S K B) Unit) (w : World S K B)
      → id ≢ ""
      → C.Up w.store
      → attempts ≡ self.config.max_retries
      → failing attempts e next w
        ≡ next (record w {
          store = (S.mark_failed id (exn_message e) attempts w.store).1;
          metrics = observe_store_op "mark_failed" (record_error r.topic (exn_name e) w.metrics);
        })
  unfolding failed_attempt mark back_off
  failing-last attempts e next w ne up h =
      ground (arith, C.fail_answer id (exn_message e) attempts w.store up)

  pub failing-again :
      (attempts : ℕ) (e : Exn) (next : Exec (World S K B) Unit) (w : World S K B) (t : S.State)
      → id ≢ ""
      → C.Up w.store
      → attempts < self.config.max_retries
      → sleep
          (self.config.retry_backoff_ms * attempts)
          (S.mark_failed id (exn_message e) attempts w.store).1
        ≡ (ok tt, t)
      → (S.claim id t).0 ≡ ok true
      → failing attempts e next w
        ≡ next (record w { store = (S.claim id t).1; metrics = retried e w.metrics })
  unfolding failed_attempt mark back_off reclaim
  failing-again attempts e next w t ne up below slept won =
      ground (arith, C.fail_answer id (exn_message e) attempts w.store up)

  failed_state :
      (attempts n : ℕ) (lease : Option ℕ) (message : String) (s t : S.State)
      → Quiet s t
      → C.view s id ≡ some (running n lease)
      → let u = (S.mark_failed id message attempts t).1 in
        C.Up u × (C.rules u ≡ C.rules s) × (C.view u id ≡ some (broken attempts))
  unfolding spec_fail
  failed_state attempts n lease message s t q held =
      let (up, rules, now) = C.fail_keeps id message attempts t q.up in
      (
        up,
        rules ∙ q.rules,
        ground (
          arith,
          C.fail_view id id message attempts n lease t q.up (q.view ∙ held),
          q.view,
          held,
        ),
      )

  pub Tries-along : {s t : S.State} → C.rules t ≡ C.rules s → Tries s → Tries t
  Tries-along e h = record {
    limit = ap (λ x. x.max_retries) e ∙ h.limit;
    retries = ap (λ x. x.retry_failed) e ∙ h.retries;
  }

  broken_claimable :
      (attempts : ℕ) (s : S.State)
      → Tries s
      → C.view s id ≡ some (broken attempts)
      → attempts < self.config.max_retries
      → claimable (C.rules s) (C.now s) (C.view s id) ≡ true
  unfolding claimable
  broken_claimable attempts s h e below = ground (arith, h.limit, h.retries)

  pub loop-Spent :
      (d fuel attempts n : ℕ) (lease : Option ℕ) (l : Option Exn) (w : World S K B)
      → Fails
      → id ≢ ""
      → attempts + d ≡ self.config.max_retries
      → d < fuel
      → C.Up w.store
      → Tries w.store
      → C.view w.store id ≡ some (running n lease)
      → Spent w (loop fuel attempts l w)
  loop-Spent d zero attempts n lease l w f ne sum enough up h held = absurd (omega arith)
  loop-Spent zero (suc fuel) attempts n lease l w f ne sum enough up h held =
      let (name, message, t, ran, q) = f.attempt w.store up in
      let (up', rules, view) = failed_state attempts n lease message w.store t q held in
      record {
        name = name;
        message = message;
        last = _;
        broker = refl;
        up = up';
        tries = Tries-along rules h;
        spent = ground (arith, view);
        entry = w.store;
        after = t;
        attempt = ran;
        marked = ground arith;
        gives_up =
            loop-raised fuel attempts l name message w t (omega arith) ran
            ∙ failing-last attempts (exception name message) _ (record w { store = t }) ne q.up
                (omega arith)
            ∙ loop-over fuel (attempts + 1) (exception name message) _ (omega arith);
      }
  loop-Spent (suc d) (suc fuel) attempts n lease l w f ne sum enough up h held =
      let (name, message, t, ran, q) = f.attempt w.store up in
      let (up', rules, view) = failed_state attempts n lease message w.store t q held in
      let (t', slept, q') = f.wait (self.config.retry_backoff_ms * attempts) _ up' in
      let again = Tries-along (q'.rules ∙ rules) h in
      let free = broken_claimable attempts t' again (q'.view ∙ view) (omega arith) in
      let won = C.claim_answer id t' q'.up ∙ ap ok free in
      let (m, lease', held') = view-won S C id t' q'.up free in
      let (up'', rules'', now'') = C.claim_keeps id t' q'.up in
      let rest =
        loop-Spent d fuel (attempts + 1) m lease' (some (exception name message)) _ f ne
          (omega arith) (omega arith) up'' (Tries-along rules'' again) held' in
      record {
        name = rest.name;
        message = rest.message;
        last = rest.last;
        broker = rest.broker;
        up = rest.up;
        tries = rest.tries;
        spent = rest.spent;
        entry = rest.entry;
        after = rest.after;
        attempt = rest.attempt;
        marked = rest.marked;
        gives_up =
            loop-raised fuel attempts l name message w t (omega arith) ran
            ∙ failing-again attempts (exception name message) _ (record w { store = t }) t' ne q.up
                (omega arith) slept won
            ∙ rest.gives_up;
      }
