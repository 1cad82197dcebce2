-- ===== src/Consumer/Lifecycle/Laws.antt =====
-- What `start` and `stop` leave in the fields of a consumer.
use message_deduplication_id.Prelude.{ℕ, ◌+◌, ◌≡◌, true, false, String, List, some, arith}
use message_deduplication_id.Prelude.Exec.{Exec, ok}
use message_deduplication_id.Consumer.Lifecycle.{Clients, DedupConsumer, start, stop, wants_dlq}

module _ {E : Type 0} (X : Clients E) where
  pub start-running :
      (self : DedupConsumer) (env : E)
      → (start X (self, env)).0 ≡ ok tt
      → (start X (self, env)).1.0.running ≡ true
  unfolding start
  start-running self env h = ground arith

  pub start_keeps_running :
      (self : DedupConsumer) (env : E)
      → self.running ≡ true
      → (start X (self, env)).1.0.running ≡ true
  unfolding start
  start_keeps_running self env h = ground arith

  pub stop-running : (self : DedupConsumer) (env : E) → (stop X (self, env)).1.0.running ≡ false
  unfolding stop
  stop-running self env = ground arith

  pub start-fields :
      (self : DedupConsumer) (env : E)
      → (start X (self, env)).0 ≡ ok tt
      → wants_dlq X self ≡ true
      → (start X (self, env)).1.0.fields
        ≡ record self.fields { has_consumer = true; has_dlq_producer = true }
  unfolding start
  start-fields self env h wants = ground arith

  -- Adds `k` to `opened` and `n` to `closed` when it returns.
  abbrev Tallies : (E → ℕ) → (E → ℕ) → ℕ → ℕ → Exec E Unit → Type 0
  Tallies opened closed k n m =
      (env : E)
      → (m env).0 ≡ ok tt
      → (opened (m env).1 ≡ opened env + k) × (closed (m env).1 ≡ closed env + n)

  -- Two counts: the clients that were started, and those that were stopped or closed.
  pub record Counts (opened closed : E → ℕ) : Type 0 where
    pub new_consumer :
        (topics : List String) (bootstrap group_id : String)
        → Tallies opened closed 0 0 (X.new_consumer topics bootstrap group_id)
    pub start_consumer : Tallies opened closed 1 0 X.start_consumer
    pub stop_consumer : Tallies opened closed 0 1 X.stop_consumer
    pub new_producer : (bootstrap : String) → Tallies opened closed 0 0 (X.new_producer bootstrap)
    pub start_producer : Tallies opened closed 1 0 X.start_producer
    pub stop_producer : Tallies opened closed 0 1 X.stop_producer
    pub connect : Exec E Unit
    pub connects : X.connect ≡ some connect
    pub connected : Tallies opened closed 1 0 connect
    pub close : Tallies opened closed 0 1 X.close

  module _ (opened closed : E → ℕ) (C : Counts opened closed) where
    pub start-opened :
        (self : DedupConsumer) (env : E)
        → (start X (self, env)).0 ≡ ok tt
        → wants_dlq X self ≡ true
        → (opened (start X (self, env)).1.1 ≡ opened env + 3)
          × (closed (start X (self, env)).1.1 ≡ closed env)
    unfolding start
    start-opened self env h wants =
        let e1 = (X.new_consumer self.topics self.bootstrap self.group_id env).1 in
        let e2 = (X.start_consumer e1).1 in
        let e3 = (X.new_producer self.bootstrap e2).1 in
        let e4 = (X.start_producer e3).1 in
        let a = C.new_consumer self.topics self.bootstrap self.group_id env in
        let b = C.start_consumer e1 in
        let c = C.new_producer self.bootstrap e2 in
        let d = C.start_producer e3 in
        let f = C.connected e4 in let g = C.connects in (ground arith, ground arith)

    pub stop-closed :
        (self : DedupConsumer) (env : E)
        → (stop X (self, env)).0 ≡ ok tt
        → self.fields.has_consumer ≡ true
        → self.fields.has_dlq_producer ≡ true
        → (opened (stop X (self, env)).1.1 ≡ opened env)
          × (closed (stop X (self, env)).1.1 ≡ closed env + 3)
    unfolding stop
    stop-closed self env h has_consumer has_producer =
        let e1 = (X.stop_consumer env).1 in
        let a = C.stop_consumer env in
        let b = C.stop_producer e1 in
        let c = C.close (X.stop_producer e1).1 in (ground arith, ground arith)
