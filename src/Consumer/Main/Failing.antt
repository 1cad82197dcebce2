-- ===== src/Consumer/Main/Failing.antt =====
-- `main` when a consumer does not start.
use mathlib.Core.Path.{subst}
use message_deduplication_id.Prelude.{
  ◌≡◌, ap, sym, ◌∙◌, inl, inr, Bool, true, List, [], ◌∷◌, ◌++◌, All,
}
use message_deduplication_id.Prelude.Exec.{
  Exn, ok, raised, Result-cases, resume-returned, resume-ok, resume-raised,
}
use message_deduplication_id.Consumer.Lifecycle.{BaseConsumer}
use message_deduplication_id.Consumer.Main.{EventLoop, start_all, main}
use message_deduplication_id.Consumer.Main.Laws.{Flags, started_at}

module _ {W I : Type 0} (consumer : I → BaseConsumer W) (running : I → W → Bool)
    (F : Flags consumer running) where
  start_all-up :
      (is : List I) (j : I) (w : W)
      → running j w ≡ true
      → running j (start_all consumer is w).1 ≡ true
  unfolding start_all
  start_all-up [] j w h = h
  start_all-up (i ∷ is) j w h = elim (Result-cases ((consumer i).start w).0) [
    | inl (a, e) ↦
        rw (resume-ok _ ((consumer i).start w) a e)
          (start_all-up is j ((consumer i).start w).1 (F.stays_up i j w h))
    | inr (e, r) ↦ rw (resume-raised _ ((consumer i).start w) e r) (F.stays_up i j w h)
  ]

  record Stuck (is js : List I) (j : I) (w : W) (e : Exn) : Type 0 where
    ended :
        start_all consumer (is ++ (j ∷ js)) w
        ≡ (raised e, ((consumer j).start (started_at consumer is w)).1)
    up : All (λ i. running i (started_at consumer (is ++ (j ∷ js)) w) ≡ true) is

  start_all-Stuck :
      (is js : List I) (j : I) (w : W) (e : Exn)
      → (start_all consumer is w).0 ≡ ok tt
      → ((consumer j).start (started_at consumer is w)).0 ≡ raised e
      → Stuck is js j w e
  unfolding start_all
  start_all-Stuck [] js j w e h r = record {
    ended = resume-raised _ ((consumer j).start w) e r;
    up = tt;
  }
  start_all-Stuck (i ∷ is) js j w e h r =
      let w' = ((consumer i).start w).1 in
      let (a, first, whole) = resume-returned _ ((consumer i).start w) tt h in
      let rest =
        start_all-Stuck is js j w' e (sym (ap (λ x. x.0) whole) ∙ h)
          (subst (λ x. ((consumer j).start x.1).0 ≡ raised e) whole r) in
      let same =
        resume-ok (λ _. start_all consumer (is ++ (j ∷ js))) ((consumer i).start w) tt first in
      record {
        ended = same ∙ rest.ended ∙ ap (λ x. (raised e, ((consumer j).start x.1).1)) (sym whole);
        up =
            subst (λ x. All (λ k. running k x.1 ≡ true) (i ∷ is)) (sym same)
              (start_all-up (is ++ (j ∷ js)) i w' (F.starts i w first), rest.up);
      }

  -- A consumer that does not start: `main` raises its exception, in the state that its `start` leaves,
  -- so that no later consumer is started and nothing is stopped; and the consumers that were started
  -- before it are left running.
  pub main_start_raises :
      (loop : EventLoop W) (is js : List I) (j : I) (w : W) (e : Exn)
      → (start_all consumer is w).0 ≡ ok tt
      → ((consumer j).start (started_at consumer is w)).0 ≡ raised e
      → (main consumer loop (is ++ (j ∷ js)) w
          ≡ (raised e, ((consumer j).start (started_at consumer is w)).1))
        × All (λ i. running i (main consumer loop (is ++ (j ∷ js)) w).1 ≡ true) is
  unfolding main
  main_start_raises loop is js j w e h r =
      let s = start_all-Stuck is js j w e h r in
      let ends =
        resume-raised _ (start_all consumer (is ++ (j ∷ js)) w) e (ap (λ x. x.0) s.ended) in
      (
        ends ∙ ap (λ x. (raised e, x.1)) s.ended,
        subst (λ x. All (λ i. running i x.1 ≡ true) is) (sym ends) s.up,
      )
