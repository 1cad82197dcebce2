-- ===== src/Dedup/Lockstep/Agree.antt =====
-- Two backends that take the same calls from equal views.
use message_deduplication_id.Prelude.{
  String, ◌≡◌, refl, ap, sym, ◌∙◌, Option, none, List, ◌∷◌, ◌==◌, if◌then◌else◌,
}
use message_deduplication_id.Prelude.Exec.{ok}
use message_deduplication_id.Dedup.Lifecycle.{Phase}
use message_deduplication_id.Dedup.Store.{Store, Contract}
use message_deduplication_id.Dedup.Lockstep.{
  Facts, Upkeep, Answer, told, done_with, read, facts_read, Same, Lockstep, start, claims, asks,
  completes, fails, reads, deletes, waits,
}

module _ (S T : Store) (C : Contract S) (D : Contract T) (F : S.State → String → Option Facts)
    (G : T.State → String → Option Facts) (P : Upkeep S C F) (Q : Upkeep T D G) where
  pub record Alike (xs ys : List Answer) (u : S.State) (v : T.State) : Type 0 where
    pub answers : xs ≡ ys
    pub same : Same S T C D F G u v

  abbrev KeepsLeft : S.State → S.State → Type 0
  KeepsLeft u u' = C.Up u' × (C.rules u' ≡ C.rules u) × (C.now u' ≡ C.now u)

  abbrev KeepsRight : T.State → T.State → Type 0
  KeepsRight v v' = D.Up v' × (D.rules v' ≡ D.rules v) × (D.now v' ≡ D.now v)

  -- One call: equal answers, and the views of its message move to the same phase.
  step-Alike :
      {xs ys : List Answer} {u u' : S.State} {v v' : T.State} (k : String) (x y : Answer)
      (p q : Option Phase) (a b : Option Facts)
      → Alike xs ys u v
      → x ≡ y
      → p ≡ q
      → a ≡ b
      → KeepsLeft u u'
      → KeepsRight v v'
      → ((j : String) → C.view u' j ≡ (if j == k then p else C.view u j))
      → ((j : String) → D.view v' j ≡ (if j == k then q else D.view v j))
      → ((j : String) → F u' j ≡ (if j == k then a else F u j))
      → ((j : String) → G v' j ≡ (if j == k then b else G v j))
      → Alike (x ∷ xs) (y ∷ ys) u' v'
  step-Alike k x y p q a b h e m m' (up, r, n) (up', r', n') f g f' g' = record {
    answers = rw (e, h.answers) refl;
    same = record {
      left = up;
      right = up';
      rules = r ∙ h.same.rules ∙ sym r';
      now = n ∙ h.same.now ∙ sym n';
      views = λ j. f j ∙ rw (m, h.same.views j) refl ∙ sym (g j);
      facts = λ j. f' j ∙ rw (m', h.same.facts j) refl ∙ sym (g' j);
    };
  }

  -- A call that changes nothing.
  look-Alike :
      {xs ys : List Answer} {u u' : S.State} {v v' : T.State} (x y : Answer)
      → Alike xs ys u v
      → x ≡ y
      → u' ≡ u
      → v' ≡ v
      → Alike (x ∷ xs) (y ∷ ys) u' v'
  look-Alike x y a e i j = rw (i, j) (record { answers = rw (e, a.answers) refl; same = a.same })

  pub Lockstep-Alike :
      {s : S.State} {t : T.State} {xs ys : List Answer} {u : S.State} {v : T.State}
      → Same S T C D F G s t
      → Lockstep S T C D F G s t xs ys u v
      → Alike xs ys u v
  Lockstep-Alike h start = record { answers = refl; same = h }
  Lockstep-Alike h (claims {u = u} {v = v} k r) =
      let a = Lockstep-Alike h r in
      let q = a.same in
      step-Alike k _ _ _ _ _ _ a
        (ap told (
          C.claim_answer k u q.left
          ∙ rw (q.rules, q.now, q.views k) (sym (D.claim_answer k v q.right))))
        (rw (q.rules, q.now, q.views k) refl) (rw (q.rules, q.now, q.views k, q.facts k) refl)
        (C.claim_keeps k u q.left) (D.claim_keeps k v q.right) (λ j. C.claim_view k j u q.left)
        (λ j. D.claim_view k j v q.right) (λ j. P.claim_facts k j u q.left)
        (λ j. Q.claim_facts k j v q.right)
  Lockstep-Alike h (asks {u = u} {v = v} k r) =
      let a = Lockstep-Alike h r in
      let q = a.same in
      let e = P.duplicate_answer k u q.left in
      let e' = Q.duplicate_answer k v q.right in
      look-Alike _ _ a (ap told (ap (λ x. x.0) e ∙ rw (q.views k) refl ∙ sym (ap (λ x. x.0) e')))
        (ap (λ x. x.1) e) (ap (λ x. x.1) e')
  Lockstep-Alike h (completes {u = u} {v = v} k x c d r) =
      let a = Lockstep-Alike h r in
      let q = a.same in
      step-Alike k _ _ _ _ _ _ a
        (ap done_with (C.complete_answer k x u q.left c ∙ sym (D.complete_answer k x v q.right d)))
        (rw (q.views k) refl) (rw (q.facts k) refl) (C.complete_keeps k x u q.left)
        (D.complete_keeps k x v q.right) (λ j. C.complete_view k j x u q.left c)
        (λ j. D.complete_view k j x v q.right d) (λ j. P.complete_facts k j x u q.left c)
        (λ j. Q.complete_facts k j x v q.right d)
  Lockstep-Alike h (fails {u = u} {v = v} k e n m l p ne r) =
      let a = Lockstep-Alike h r in
      let q = a.same in
      step-Alike k _ _ _ _ _ _ a
        (ap done_with (C.fail_answer k e n u q.left ∙ sym (D.fail_answer k e n v q.right)))
        (rw (q.views k) refl) (rw (q.facts k) refl) (C.fail_keeps k e n u q.left)
        (D.fail_keeps k e n v q.right) (λ j. C.fail_view k j e n m l u q.left p)
        (λ j. D.fail_view k j e n m l v q.right (sym (q.views k) ∙ p))
        (λ j. P.fail_facts k j e n m l u q.left p ne)
        (λ j. Q.fail_facts k j e n m l v q.right (sym (q.views k) ∙ p) ne)
  Lockstep-Alike h (reads {u = u} {v = v} k r) =
      let a = Lockstep-Alike h r in
      let q = a.same in
      let (x, e, p) = P.status_facts k u q.left in
      let (y, e', p') = Q.status_facts k v q.right in
      look-Alike _ _ a
        (ap (λ x. read (facts_read x.0)) e
          ∙ ap (λ z. read (ok z)) (p ∙ q.facts k ∙ sym p')
          ∙ sym (ap (λ x. read (facts_read x.0)) e'))
        (ap (λ x. x.1) e) (ap (λ x. x.1) e')
  Lockstep-Alike h (deletes {u = u} {v = v} k r) =
      let a = Lockstep-Alike h r in
      let q = a.same in
      step-Alike k _ _ none none none none a
        (ap done_with (P.delete_answer k u q.left ∙ sym (Q.delete_answer k v q.right))) refl refl
        (P.delete_keeps k u q.left) (Q.delete_keeps k v q.right) (λ j. P.delete_view k j u q.left)
        (λ j. Q.delete_view k j v q.right) (λ j. P.delete_facts k j u q.left)
        (λ j. Q.delete_facts k j v q.right)
  Lockstep-Alike h (waits w w' n f g r) =
      let a = Lockstep-Alike h r in
      record {
        answers = a.answers;
        same = record {
          left = w.up;
          right = w'.up;
          rules = w.rules ∙ a.same.rules ∙ sym w'.rules;
          now = n;
          views = λ j. w.views j ∙ a.same.views j ∙ sym (w'.views j);
          facts = λ j. f j ∙ a.same.facts j ∙ sym (g j);
        };
      }
