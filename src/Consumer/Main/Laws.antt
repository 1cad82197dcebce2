-- ===== src/Consumer/Main/Laws.antt =====
-- What `main` leaves behind when it returns, and when a consumer does not start.
use mathlib.Core.Path.{subst}
use message_deduplication_id.Prelude.{
  ℕ, ◌≡◌, inl, inr, refl, ap, sym, ◌∙◌, Bool, true, false, List, [], ◌∷◌, All, arith, if◌then◌else◌,
}
use message_deduplication_id.Prelude.Exec.{
  ok, Result-cases, resume-returned, resume-ok, resume-raised,
}
use message_deduplication_id.Consumer.Lifecycle.{BaseConsumer}
use message_deduplication_id.Consumer.Main.{
  Task, pending, returned, cancelled, crashed, EventLoop, exit_code, start_all, stop_all, run_tasks,
  shut_down, main,
}

-- `running i w` is the flag of the consumer `i`. Nothing but its own `start` raises it, and its own
-- `stop` takes it down whether it returns or raises.
pub record Flags {W I : Type 0} (consumer : I → BaseConsumer W) (running : I → W → Bool)
    : Type 0 where
  pub starts :
      (i : I) (w : W) → ((consumer i).start w).0 ≡ ok tt → running i ((consumer i).start w).1 ≡ true
  pub stays_up : (i j : I) (w : W) → running j w ≡ true → running j ((consumer i).start w).1 ≡ true
  pub stops : (i : I) (w : W) → running i ((consumer i).stop w).1 ≡ false
  pub stays_down :
      (i j : I) (w : W) → running j w ≡ false → running j ((consumer i).stop w).1 ≡ false

unfoldable pub any_crashed : List Task → Bool
any_crashed [] = false
any_crashed (crashed e ∷ tasks) = true
any_crashed (_ ∷ tasks) = any_crashed tasks

exit_code-any_crashed :
    {W : Type 0} (tasks : List Task) (n code : ℕ) (w : W)
    → (exit_code tasks n w).0 ≡ ok code
    → code ≡ (if any_crashed tasks then 1 else n)
unfolding exit_code any_crashed
exit_code-any_crashed [] n code w h = ground arith
exit_code-any_crashed (pending ∷ ts) n code w h = exit_code-any_crashed ts n code w h
exit_code-any_crashed (returned ∷ ts) n code w h = exit_code-any_crashed ts n code w h
exit_code-any_crashed (cancelled ∷ ts) n code w h = absurd (cc)
exit_code-any_crashed (crashed e ∷ ts) n code w h =
    ground (arith, exit_code-any_crashed ts 1 code w h)

exit_code-state : {W : Type 0} (tasks : List Task) (n : ℕ) (w : W) → (exit_code tasks n w).1 ≡ w
unfolding exit_code
exit_code-state [] n w = refl
exit_code-state (pending ∷ ts) n w = exit_code-state ts n w
exit_code-state (returned ∷ ts) n w = exit_code-state ts n w
exit_code-state (cancelled ∷ ts) n w = refl
exit_code-state (crashed e ∷ ts) n w = exit_code-state ts 1 w

module _ {W I : Type 0} (consumer : I → BaseConsumer W) where
  abbrev pub started_at : List I → W → W
  started_at is w = (start_all consumer is w).1

  -- the tasks when the wait is over
  abbrev pub tasks_of : EventLoop W → List I → W → List Task
  tasks_of loop is w = (loop.wait (run_tasks consumer is) (started_at is w)).0

  -- the state when the consumers are stopped
  abbrev pub drained_at : EventLoop W → List I → W → W
  drained_at loop is w =
      loop.cancel_all (run_tasks consumer is)
        (loop.wait (run_tasks consumer is) (started_at is w)).1

  pub record Returned (loop : EventLoop W) (is : List I) (w : W) (code : ℕ) : Type 0 where
    pub started : (start_all consumer is w).0 ≡ ok tt
    pub exits : code ≡ (if any_crashed (tasks_of loop is w) then 1 else 0)
    pub stopped : (stop_all consumer is (drained_at loop is w)).0 ≡ ok tt
    pub last : (main consumer loop is w).1 ≡ (stop_all consumer is (drained_at loop is w)).1

  pub main-Returned :
      (loop : EventLoop W) (is : List I) (w : W) (code : ℕ)
      → (main consumer loop is w).0 ≡ ok code
      → Returned loop is w code
  unfolding main shut_down
  main-Returned loop is w code h =
      let (a, started, e) = resume-returned _ (start_all consumer is w) code h in
      let tasks = tasks_of loop is w in
      let waited = (loop.wait (run_tasks consumer is) (started_at is w)).1 in
      let (c, exited, e') =
        resume-returned _ (exit_code tasks 0 waited) code (sym (ap (λ r. r.0) e) ∙ h) in
      let whole = e ∙ e' in
      let (b, stopped, e'') =
        resume-returned _ (shut_down consumer loop is (exit_code tasks 0 waited).1) code
          (sym (ap (λ r. r.0) whole) ∙ h) in
      let same = exit_code-state tasks 0 waited in
      let ends = whole ∙ e'' in
      let given : ok c ≡ ok code = sym (ap (λ r. r.0) ends) ∙ h in
      let same_code : code ≡ c = cc in
      record {
        started = started;
        exits = same_code ∙ exit_code-any_crashed tasks 0 c waited exited;
        stopped =
            subst
              (λ x. (stop_all consumer is (loop.cancel_all (run_tasks consumer is) x)).0 ≡ ok tt)
              same stopped;
        last =
            ap (λ r. r.1) ends
            ∙ ap (λ x. (stop_all consumer is (loop.cancel_all (run_tasks consumer is) x)).1) same;
      }

  module _ (running : I → W → Bool) (F : Flags consumer running) where
    stop_all-down :
        (is : List I) (j : I) (w : W)
        → running j w ≡ false
        → running j (stop_all consumer is w).1 ≡ false
    unfolding stop_all
    stop_all-down [] j w h = h
    stop_all-down (i ∷ is) j w h = elim (Result-cases ((consumer i).stop w).0) [
      | inl (a, e) ↦
          rw (resume-ok _ ((consumer i).stop w) a e)
            (stop_all-down is j ((consumer i).stop w).1 (F.stays_down i j w h))
      | inr (e, r) ↦ rw (resume-raised _ ((consumer i).stop w) e r) (F.stays_down i j w h)
    ]

    stop_all-All :
        (is : List I) (w : W)
        → (stop_all consumer is w).0 ≡ ok tt
        → All (λ i. running i (stop_all consumer is w).1 ≡ false) is
    unfolding stop_all
    stop_all-All [] w h = tt
    stop_all-All (i ∷ is) w h =
        let (a, e, whole) = resume-returned _ ((consumer i).stop w) tt h in
        let w' = ((consumer i).stop w).1 in
        subst (λ r. All (λ j. running j r.1 ≡ false) (i ∷ is)) (sym whole)
          (stop_all-down is i w' (F.stops i w), stop_all-All is w' (sym (ap (λ r. r.0) whole) ∙ h))

    -- `main` that returns has stopped every consumer, and its exit code is 1 where the task of a
    -- consumer had crashed when the wait ended, and 0 otherwise. It holds for every event loop.
    pub main_stops :
        (loop : EventLoop W) (is : List I) (w : W) (code : ℕ)
        → (main consumer loop is w).0 ≡ ok code
        → All (λ i. running i (main consumer loop is w).1 ≡ false) is
          × (code ≡ (if any_crashed (tasks_of loop is w) then 1 else 0))
    main_stops loop is w code h =
        let r = main-Returned loop is w code h in
        (
          subst (λ x. All (λ i. running i x ≡ false) is) (sym r.last)
              (stop_all-All is (drained_at loop is w) r.stopped),
          r.exits,
        )
