-- ===== src/Consumer/Main/Balance.antt =====
-- The clients that `main` opens and closes for its three handlers.
use mathlib.Core.Path.{subst}
use message_deduplication_id.Prelude.{
  ℕ, ◌+◌, ◌≡◌, ap, sym, ◌∙◌, All, false, if◌then◌else◌, String, List, arith,
}
use message_deduplication_id.Prelude.Exec.{Exec, ok, resume-returned}
use message_deduplication_id.Dedup.{Value, DeduplicationConfig}
use message_deduplication_id.Consumer.Handlers.{Handler, orders, payments, shipments, started}
use message_deduplication_id.Settings.{Settings, dedup_config}
use message_deduplication_id.Consumer.Lifecycle.{Clients}
use message_deduplication_id.Consumer.Lifecycle.Laws.{Counts, start-opened, stop-closed}
use message_deduplication_id.Consumer.Main.{EventLoop, start_all, stop_all, main}
use message_deduplication_id.Consumer.Main.Laws.{
  started_at, drained_at, tasks_of, any_crashed, main-Returned, main_stops,
}
use message_deduplication_id.Consumer.Main.Fleet.{
  Fleet, fleet, handlers, built, member, running, consumer, consumer-Flags, built-wants_dlq,
  start-started,
}

module _ {E : Type 0} (X : Handler → Clients E) (run : Handler → Exec (Fleet E) Unit)
    (type_name : Value → String) (opened closed : E → ℕ)
    (C : (h : Handler) → Counts (X h) opened closed) where
  -- The wait and the cancellation: runs neither open nor close a client, nor set a field.
  pub record IsQuiet (loop : EventLoop (Fleet E)) : Type 0 where
    pub same_fields :
        (h : Handler) (is : List Handler) (w : Fleet E)
        → (member h (drained_at (consumer X run type_name) loop is w)).fields
          ≡ (member h (started_at (consumer X run type_name) is w)).fields
    pub same_opened :
        (is : List Handler) (w : Fleet E)
        → opened (drained_at (consumer X run type_name) loop is w).env
          ≡ opened (started_at (consumer X run type_name) is w).env
    pub same_closed :
        (is : List Handler) (w : Fleet E)
        → closed (drained_at (consumer X run type_name) loop is w).env
          ≡ closed (started_at (consumer X run type_name) is w).env

  record Opened (config : DeduplicationConfig) (w v : Fleet E) : Type 0 where
    fields : (h : Handler) → (member h v).fields ≡ started h config
    opens : opened v.env ≡ opened w.env + 9
    closes : closed v.env ≡ closed w.env

  start_all-Opened :
      (settings : Settings) (env : E)
      → (start_all (consumer X run type_name) handlers (fleet settings env)).0 ≡ ok tt
      → Opened
          (dedup_config settings)
          (fleet settings env)
          (started_at (consumer X run type_name) handlers (fleet settings env))
  unfolding start_all fleet
  start_all-Opened settings env h =
      let config = dedup_config settings in
      let c = consumer X run type_name in
      let w0 = fleet settings env in
      let (a, first, e) = resume-returned _ ((c orders).start w0) tt h in
      let w1 = ((c orders).start w0).1 in
      let (a', second, e') =
        resume-returned _ ((c payments).start w1) tt (sym (ap (λ r. r.0) e) ∙ h) in
      let w2 = ((c payments).start w1).1 in
      let (a'', third, e'') =
        resume-returned _ ((c shipments).start w2) tt (sym (ap (λ r. r.0) (e ∙ e')) ∙ h) in
      let w3 = ((c shipments).start w2).1 in
      let p =
        start-opened (X orders) opened closed (C orders) (built settings orders config) w0.env first
          (built-wants_dlq (X orders) settings orders config) in
      let q =
        start-opened (X payments) opened closed (C payments) (built settings payments config) w1.env
          second (built-wants_dlq (X payments) settings payments config) in
      let r =
        start-opened (X shipments) opened closed (C shipments) (built settings shipments config)
          w2.env third (built-wants_dlq (X shipments) settings shipments config) in
      let ends : started_at c handlers w0 ≡ w3 = ap (λ x. x.1) (e ∙ e' ∙ e'') in
      let f = start-started (X orders) settings orders config w0.env first in
      let g = start-started (X payments) settings payments config w1.env second in
      let k = start-started (X shipments) settings shipments config w2.env third in
      subst (Opened config w0) (sym ends) (record {
        fields = λ i. elim i as (λ j. (member j w3).fields ≡ started j config) [
          | orders ↦ f
          | payments ↦ g
          | shipments ↦ k
        ];
        opens = omega (arith, p.0, q.0, r.0);
        closes = omega (arith, p.1, q.1, r.1);
      })

  stop_all-closed :
      (config : DeduplicationConfig) (w : Fleet E)
      → ((h : Handler) → (member h w).fields ≡ started h config)
      → (stop_all (consumer X run type_name) handlers w).0 ≡ ok tt
      → (opened (stop_all (consumer X run type_name) handlers w).1.env ≡ opened w.env)
        × (closed (stop_all (consumer X run type_name) handlers w).1.env ≡ closed w.env + 9)
  unfolding stop_all started
  stop_all-closed config w0 fields h =
      let c = consumer X run type_name in
      let (a, first, e) = resume-returned _ ((c orders).stop w0) tt h in
      let w1 = ((c orders).stop w0).1 in
      let (a', second, e') =
        resume-returned _ ((c payments).stop w1) tt (sym (ap (λ r. r.0) e) ∙ h) in
      let w2 = ((c payments).stop w1).1 in
      let (a'', third, e'') =
        resume-returned _ ((c shipments).stop w2) tt (sym (ap (λ r. r.0) (e ∙ e')) ∙ h) in
      let p =
        stop-closed (X orders) opened closed (C orders) w0.order_handler w0.env first
          (ap (λ f. f.has_consumer) (fields orders))
          (ap (λ f. f.has_dlq_producer) (fields orders)) in
      let q =
        stop-closed (X payments) opened closed (C payments) w0.payment_handler w1.env second
          (ap (λ f. f.has_consumer) (fields payments))
          (ap (λ f. f.has_dlq_producer) (fields payments)) in
      let r =
        stop-closed (X shipments) opened closed (C shipments) w0.shipment_handler w2.env third
          (ap (λ f. f.has_consumer) (fields shipments))
          (ap (λ f. f.has_dlq_producer) (fields shipments)) in
      let ends = ap (λ x. x.1) (e ∙ e' ∙ e'') in
      (
        ap (λ x. opened x.env) ends ∙ omega (arith, p.0, q.0, r.0),
        ap (λ x. closed x.env) ends ∙ omega (arith, p.1, q.1, r.1),
      )

  -- `main` of the three handlers, when it returns: nine clients were opened, a Kafka consumer, a DLQ
  -- producer and a store for each handler, and nine were closed; no consumer is left running, and the
  -- exit code is 1 where the task of a consumer had crashed when the wait ended, and 0 otherwise. It
  -- holds for clients of which each start, connect, stop and close that returns counts once, and for
  -- runs that open and close nothing.
  pub main_closes :
      (loop : EventLoop (Fleet E)) (settings : Settings) (env : E) (code : ℕ)
      → IsQuiet loop
      → (main (consumer X run type_name) loop handlers (fleet settings env)).0 ≡ ok code
      → (opened (main (consumer X run type_name) loop handlers (fleet settings env)).1.env
          ≡ opened env + 9)
        × (closed (main (consumer X run type_name) loop handlers (fleet settings env)).1.env
            ≡ closed env + 9)
        × All
            (λ h.
              running h (main (consumer X run type_name) loop handlers (fleet settings env)).1
              ≡ false)
            handlers
        × (code ≡ (
            if any_crashed (tasks_of (consumer X run type_name) loop handlers (fleet settings env))
            then 1
            else 0))
  unfolding fleet
  main_closes loop settings env code quiet h =
      let c = consumer X run type_name in
      let w = fleet settings env in
      let r = main-Returned c loop handlers w code h in
      let s = start_all-Opened settings env r.started in
      let (opens, closes) =
        stop_all-closed (dedup_config settings) (drained_at c loop handlers w)
          (λ i. quiet.same_fields i handlers w ∙ s.fields i) r.stopped in
      let (stops, exits) =
        main_stops c running (consumer-Flags X run type_name) loop handlers w code h in
      (
        ap (λ x. opened x.env) r.last ∙ opens ∙ quiet.same_opened handlers w ∙ s.opens,
        ap (λ x. closed x.env) r.last
            ∙ omega (arith, closes, quiet.same_closed handlers w, s.closes),
        stops,
        exits,
      )
