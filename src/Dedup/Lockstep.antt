-- ===== src/Dedup/Lockstep.antt =====
-- Two backends of src/dedup/store.py that take the same calls, one after another.
pub mod Agree
pub mod Stores
use message_deduplication_id.Prelude.{
  ℕ, ◌+◌, String, ◌≡◌, ◌≢◌, refl, ap, sym, ◌∙◌, Bool, true, false, Option, none, some, List, [],
  ◌∷◌, ◌==◌, Bool-cases, inl, inr, if◌then◌else◌, arith,
}
use message_deduplication_id.Prelude.Exec.{Result, ok, raised}
use message_deduplication_id.Dedup.{
  Value, null, StatusValue, ProcessingStatus, processing, completed, failed, is_processing,
}
use message_deduplication_id.Dedup.Lifecycle.{
  Phase, running, phase, Rules, claimable, spec_claim, spec_complete, spec_fail,
}
use message_deduplication_id.Dedup.Store.{Store, Contract}
use message_deduplication_id.Dedup.Races.{Waits}

abbrev pub is_some {ℓ} : {A : Type ℓ} → Option A → Bool
is_some none = false
is_some (some _) = true

-- What two backends have in common of a record: all but its dates, and its id, by which it is found.
pub record Facts : Type 0 where
  pub status : StatusValue
  pub attempts : ℕ
  pub result : Value
  pub error : Option String
  pub lease : Option ℕ

abbrev pub facts_of : Option ProcessingStatus → Option Facts
facts_of none = none
facts_of (some r) = some (record {
  status = r.status;
  attempts = r.attempts;
  result = r.result;
  error = r.error;
  lease = r.lease_expires_at;
})

abbrev attempts_before : Option Facts → ℕ
attempts_before none = 0
attempts_before (some f) = f.attempts

-- What a claim that is won until an instant, a completion and a failure make of a record.
abbrev pub claimed : Bool → ℕ → Option Facts → Option Facts
claimed free until p =
    if free
    then some (record {
      status = processing;
      attempts = attempts_before p + 1;
      result = null;
      error = none;
      lease = some until;
    })
    else p

abbrev pub finished : Value → Option Facts → Option Facts
finished v none = none
finished v (some f) =
    if is_processing f.status
    then some (record f { status = completed; result = v; lease = none })
    else some f

abbrev pub abandoned : String → ℕ → Option Facts → Option Facts
abandoned e n none = none
abandoned e n (some f) =
    if is_processing f.status
    then some (record f { status = failed; attempts = n; error = some e; lease = none })
    else some f

-- What each method does to the records of a backend, and what the two methods do that the clients of
-- a store do not call. `facts s k` is the record of the message `k`.
pub record Upkeep (S : Store) (C : Contract S) (facts : S.State → String → Option Facts)
    : Type 0 where
  pub claim_facts :
      (id j : String) (s : S.State)
      → C.Up s
      → facts (S.claim id s).1 j ≡ (
          if j == id
          then claimed
              (claimable (C.rules s) (C.now s) (C.view s id))
              (C.now s + (C.rules s).lease)
              (facts s id)
          else facts s j)
  pub complete_facts :
      (id j : String) (v : Value) (s : S.State)
      → C.Up s
      → C.Storable v
      → facts (S.mark_completed id v s).1 j
        ≡ (if j == id then finished v (facts s id) else facts s j)
  pub fail_facts :
      (id j e : String) (n m : ℕ) (l : Option ℕ) (s : S.State)
      → C.Up s
      → C.view s id ≡ some (running m l)
      → e ≢ ""
      → facts (S.mark_failed id e n s).1 j
        ≡ (if j == id then abandoned e n (facts s id) else facts s j)
  pub delete_facts :
      (id j : String) (s : S.State)
      → C.Up s
      → facts (S.delete id s).1 j ≡ (if j == id then none else facts s j)
  pub status_facts :
      (id : String) (s : S.State)
      → C.Up s
      → (r : Option ProcessingStatus) × (S.get_status id s ≡ (ok r, s)) × (facts_of r ≡ facts s id)
  pub duplicate_answer :
      (id : String) (s : S.State) → C.Up s → S.is_duplicate id s ≡ (ok (is_some (C.view s id)), s)
  pub delete_answer : (id : String) (s : S.State) → C.Up s → (S.delete id s).0 ≡ ok tt
  pub delete_view :
      (id j : String) (s : S.State)
      → C.Up s
      → C.view (S.delete id s).1 j ≡ (if j == id then none else C.view s j)
  pub delete_keeps :
      (id : String) (s : S.State)
      → C.Up s
      → C.Up (S.delete id s).1
        × (C.rules (S.delete id s).1 ≡ C.rules s)
        × (C.now (S.delete id s).1 ≡ C.now s)

-- What a call gives its caller. Of a status the dates and the id are left out.
pub data Answer : Type 0 where
  told : Result Bool → Answer
  done_with : Result (Unit {0}) → Answer
  read : Result (Option Facts) → Answer

abbrev pub facts_read : Result (Option ProcessingStatus) → Result (Option Facts)
facts_read (ok r) = ok (facts_of r)
facts_read (raised e) = raised e

module _ (S T : Store) (C : Contract S) (D : Contract T) (F : S.State → String → Option Facts)
    (G : T.State → String → Option Facts) where
  pub record Same (s : S.State) (t : T.State) : Type 0 where
    pub left : C.Up s
    pub right : D.Up t
    pub rules : C.rules s ≡ D.rules t
    pub now : C.now s ≡ D.now t
    pub views : (k : String) → C.view s k ≡ D.view t k
    pub facts : (k : String) → F s k ≡ G t k

  -- `Lockstep s t xs ys u v`: the same calls lead from `s` to `u` with the answers `xs`, and from `t`
  -- to `v` with the answers `ys`, the last one first. A result is one that both stores can keep, and
  -- `mark_failed` comes while the record is PROCESSING, with some text. In a wait both clocks advance
  -- alike, and no record changes.
  pub data Lockstep (s : S.State) (t : T.State)
      : List Answer → List Answer → S.State → T.State → Type 0 where
    start : Lockstep s t [] [] s t
    claims :
        {xs ys : List Answer} {u : S.State} {v : T.State} (k : String)
        → Lockstep s t xs ys u v
        → Lockstep s t
            (told (S.claim k u).0 ∷ xs)
            (told (T.claim k v).0 ∷ ys)
            (S.claim k u).1
            (T.claim k v).1
    asks :
        {xs ys : List Answer} {u : S.State} {v : T.State} (k : String)
        → Lockstep s t xs ys u v
        → Lockstep s t
            (told (S.is_duplicate k u).0 ∷ xs)
            (told (T.is_duplicate k v).0 ∷ ys)
            (S.is_duplicate k u).1
            (T.is_duplicate k v).1
    completes :
        {xs ys : List Answer} {u : S.State} {v : T.State} (k : String) (x : Value)
        → C.Storable x
        → D.Storable x
        → Lockstep s t xs ys u v
        → Lockstep s t
            (done_with (S.mark_completed k x u).0 ∷ xs)
            (done_with (T.mark_completed k x v).0 ∷ ys)
            (S.mark_completed k x u).1
            (T.mark_completed k x v).1
    fails :
        {xs ys : List Answer} {u : S.State} {v : T.State} (k e : String) (n m : ℕ) (l : Option ℕ)
        → C.view u k ≡ some (running m l)
        → e ≢ ""
        → Lockstep s t xs ys u v
        → Lockstep s t
            (done_with (S.mark_failed k e n u).0 ∷ xs)
            (done_with (T.mark_failed k e n v).0 ∷ ys)
            (S.mark_failed k e n u).1
            (T.mark_failed k e n v).1
    reads :
        {xs ys : List Answer} {u : S.State} {v : T.State} (k : String)
        → Lockstep s t xs ys u v
        → Lockstep s t
            (read (facts_read (S.get_status k u).0) ∷ xs)
            (read (facts_read (T.get_status k v).0) ∷ ys)
            (S.get_status k u).1
            (T.get_status k v).1
    deletes :
        {xs ys : List Answer} {u : S.State} {v : T.State} (k : String)
        → Lockstep s t xs ys u v
        → Lockstep s t
            (done_with (S.delete k u).0 ∷ xs)
            (done_with (T.delete k v).0 ∷ ys)
            (S.delete k u).1
            (T.delete k v).1
    waits :
        {xs ys : List Answer} {u u' : S.State} {v v' : T.State}
        → Waits S C u u'
        → Waits T D v v'
        → C.now u' ≡ D.now v'
        → ((k : String) → F u' k ≡ F u k)
        → ((k : String) → G v' k ≡ G v k)
        → Lockstep s t xs ys u v
        → Lockstep s t xs ys u' v'
