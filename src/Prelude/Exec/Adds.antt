-- ===== src/Prelude/Exec/Adds.antt =====
-- How much a coroutine adds to a number that the state holds, whether it returns or raises: one rule
-- for each way to build a coroutine.
use message_deduplication_id.Prelude.{
  ℕ, ◌+◌, ◌≤◌, ◌≡◌, refl, Bool, true, false, arith, if◌then◌else◌,
}
use message_deduplication_id.Prelude.Exec.{
  Exn, exception, base_exception, Result, ok, raised, Exec, pure, raise, resume, caught, ◌>>=◌,
  try_except,
}

-- `m` adds at most `n`.
pub record Adds {S A : Type 0} (count : S → ℕ) (n : ℕ) (m : Exec S A) : Type 0 where
  pub at : (s : S) → count (m s).1 ≤ count s + n

module _ {S : Type 0} (count : S → ℕ) where
  pub Adds-pure : {A : Type 0} (a : A) → Adds count 0 (pure a)
  Adds-pure a = record { at = λ s. omega arith }

  pub Adds-raise : {A : Type 0} (e : Exn) → Adds {A = A} count 0 (raise e)
  Adds-raise e = record { at = λ s. omega arith }

  pub Adds-weaken : {A : Type 0} {m : Exec S A} {n k : ℕ} → n ≤ k → Adds count n m → Adds count k m
  Adds-weaken h a = record { at = λ s. omega (arith, a.at s) }

  resume-Adds :
      {A B : Type 0} (f : A → Exec S B) (n k c : ℕ) (r : Result A × S)
      → count r.1 ≤ c + n
      → ((a : A) → Adds count k (f a))
      → count (resume f r).1 ≤ c + (n + k)
  resume-Adds f n k c (ok a, s) h af = omega (arith, (af a).at s)
  resume-Adds f n k c (raised e, s) h af = omega arith

  pub Adds-bind :
      {A B : Type 0} {m : Exec S A} {f : A → Exec S B} {n k : ℕ}
      → Adds count n m
      → ((a : A) → Adds count k (f a))
      → Adds count (n + k) (m >>= f)
  Adds-bind {m = m} {f} {n} {k} am af = record {
    at = λ s. resume-Adds f n k (count s) (m s) (am.at s) af;
  }

  -- A first part that adds nothing.
  pub Adds-bind_zero :
      {A B : Type 0} {m : Exec S A} {f : A → Exec S B} {k : ℕ}
      → Adds count 0 m
      → ((a : A) → Adds count k (f a))
      → Adds count k (m >>= f)
  Adds-bind_zero am af = Adds-weaken (omega arith) (Adds-bind am af)

  caught-Adds :
      {A B : Type 0} (handler : Exn → Exec S B) (rest : A → Exec S B) (n k c : ℕ) (r : Result A × S)
      → count r.1 ≤ c + n
      → ((e : Exn) → Adds count k (handler e))
      → ((a : A) → Adds count k (rest a))
      → count (caught handler rest r).1 ≤ c + (n + k)
  caught-Adds handler rest n k c (ok a, s) h ah ar = omega (arith, (ar a).at s)
  caught-Adds handler rest n k c (raised (exception x y), s) h ah ar =
      omega (arith, (ah (exception x y)).at s)
  caught-Adds handler rest n k c (raised (base_exception x y), s) h ah ar = omega arith

  pub Adds-try :
      {A B : Type 0} {m : Exec S A} {handler : Exn → Exec S B} {rest : A → Exec S B} {n k : ℕ}
      → Adds count n m
      → ((e : Exn) → Adds count k (handler e))
      → ((a : A) → Adds count k (rest a))
      → Adds count (n + k) (try_except m handler rest)
  Adds-try {m = m} {handler} {rest} {n} {k} am ah ar = record {
    at = λ s. caught-Adds handler rest n k (count s) (m s) (am.at s) ah ar;
  }

  pub Adds-if :
      {A : Type 0} {m l : Exec S A} {n : ℕ} (b : Bool)
      → (b ≡ true → Adds count n m)
      → (b ≡ false → Adds count n l)
      → Adds count n (if b then m else l)
  Adds-if true am al = am refl
  Adds-if false am al = al refl
