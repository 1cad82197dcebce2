-- ===== src/Prelude/Exec/Gives.antt =====
-- Coroutines that add an exact amount to a number that the state holds whenever they return, and
-- coroutines that keep it even when they raise.
use message_deduplication_id.Prelude.{ℕ, ◌+◌, ◌≡◌, refl, Bool, true, false, arith, if◌then◌else◌}
use message_deduplication_id.Prelude.Exec.{
  Exn, exception, base_exception, Result, ok, raised, Exec, pure, resume, caught, ◌>>=◌, try_except,
}

pub record Keeps {S A : Type 0} (count : S → ℕ) (m : Exec S A) : Type 0 where
  pub at : (s : S) → count (m s).1 ≡ count s

-- Where `strict`, the number is also as it was when the coroutine raises.
pub record Gives {S A : Type 0} (strict : Bool) (count : S → ℕ) (n : ℕ) (m : Exec S A)
    : Type 0 where
  pub at : (s : S) (a : A) → (m s).0 ≡ ok a → count (m s).1 ≡ count s + n
  pub back : strict ≡ true → (s : S) (e : Exn) → (m s).0 ≡ raised e → count (m s).1 ≡ count s

module _ {S : Type 0} (strict : Bool) (count : S → ℕ) where
  pub Gives-pure : {A : Type 0} (a : A) → Gives strict count 0 (pure a)
  Gives-pure a = record { at = λ s b h. omega arith; back = λ t s e h. absurd (cc) }

  pub Gives-of_Keeps : {A : Type 0} {m : Exec S A} → Keeps count m → Gives strict count 0 m
  Gives-of_Keeps k = record { at = λ s a h. omega (arith, k.at s); back = λ t s e h. k.at s }

  pub Gives-same :
      {A : Type 0} {m l : Exec S A} {n : ℕ}
      → ((s : S) → m s ≡ l s)
      → Gives strict count n l
      → Gives strict count n m
  Gives-same {m = m} {l} {n} h g = record {
    at = λ s a. rw (h s) (g.at s a);
    back = λ t s e. rw (h s) (g.back t s e);
  }

  resume-Gives :
      {A B : Type 0} (f : A → Exec S B) (k c : ℕ) (r : Result A × S) (b : B)
      → count r.1 ≡ c
      → ((a : A) → Gives strict count k (f a))
      → (resume f r).0 ≡ ok b
      → count (resume f r).1 ≡ c + k
  resume-Gives f k c (ok a, s) b h g e = omega (arith, (g a).at s b e)
  resume-Gives f k c (raised x, s) b h g e = absurd (cc)

  resume-back :
      {A B : Type 0} (f : A → Exec S B) (k c : ℕ) (r : Result A × S) (e : Exn)
      → strict ≡ true
      → count r.1 ≡ c
      → ((a : A) → Gives strict count k (f a))
      → (resume f r).0 ≡ raised e
      → count (resume f r).1 ≡ c
  resume-back f k c (ok a, s) e t h g x = omega (arith, (g a).back t s e x)
  resume-back f k c (raised y, s) e t h g x = h

  -- A first part that keeps the number.
  pub Gives-after :
      {A B : Type 0} {m : Exec S A} {f : A → Exec S B} {k : ℕ}
      → Keeps count m
      → ((a : A) → Gives strict count k (f a))
      → Gives strict count k (m >>= f)
  Gives-after {m = m} {f} {k} km gf = record {
    at = λ s b e. resume-Gives f k (count s) (m s) b (km.at s) gf e;
    back = λ t s e x. resume-back f k (count s) (m s) e t (km.at s) gf x;
  }

  settle-Gives :
      {A : Type 0} (f : S → S) (c : ℕ) (r : Result A × S) (b : Unit {0})
      → ((s : S) → count (f s) ≡ count s)
      → ((a : A) → r.0 ≡ ok a → count r.1 ≡ c)
      → (resume (λ _ s. (ok tt, f s)) r).0 ≡ ok b
      → count (resume (λ _ s. (ok tt, f s)) r).1 ≡ c
  settle-Gives f c (ok a, s) b kf h e = omega (arith, kf s, h a refl)
  settle-Gives f c (raised x, s) b kf h e = absurd (cc)

  settle-back :
      {A : Type 0} (f : S → S) (c : ℕ) (r : Result A × S) (e : Exn)
      → ((x : Exn) → r.0 ≡ raised x → count r.1 ≡ c)
      → (resume (λ _ s. (ok tt, f s)) r).0 ≡ raised e
      → count (resume (λ _ s. (ok tt, f s)) r).1 ≡ c
  settle-back f c (ok a, s) e h x = absurd (cc)
  settle-back f c (raised y, s) e h x = h y refl

  -- A last part that keeps the number and does not raise.
  pub Gives-before :
      {A : Type 0} {m : Exec S A} {n : ℕ} (f : S → S)
      → ((s : S) → count (f s) ≡ count s)
      → Gives strict count n m
      → Gives strict count n (m >>= λ _ s. (ok tt, f s))
  Gives-before {m = m} {n} f kf gm = record {
    at = λ s b e. settle-Gives f (count s + n) (m s) b kf (gm.at s) e;
    back = λ t s e x. settle-back f (count s) (m s) e (gm.back t s) x;
  }

  caught-Gives :
      {A B : Type 0} (handler : Exn → Exec S B) (rest : A → Exec S B) (k c : ℕ) (r : Result A × S)
      (b : B)
      → count r.1 ≡ c
      → ((e : Exn) → Gives strict count k (handler e))
      → ((a : A) → Gives strict count k (rest a))
      → (caught handler rest r).0 ≡ ok b
      → count (caught handler rest r).1 ≡ c + k
  caught-Gives handler rest k c (ok a, s) b h gh gr e = omega (arith, (gr a).at s b e)
  caught-Gives handler rest k c (raised (exception x y), s) b h gh gr e =
      omega (arith, (gh (exception x y)).at s b e)
  caught-Gives handler rest k c (raised (base_exception x y), s) b h gh gr e = absurd (cc)

  caught-back :
      {A B : Type 0} (handler : Exn → Exec S B) (rest : A → Exec S B) (k c : ℕ) (r : Result A × S)
      (e : Exn)
      → strict ≡ true
      → count r.1 ≡ c
      → ((e : Exn) → Gives strict count k (handler e))
      → ((a : A) → Gives strict count k (rest a))
      → (caught handler rest r).0 ≡ raised e
      → count (caught handler rest r).1 ≡ c
  caught-back handler rest k c (ok a, s) e t h gh gr x = omega (arith, (gr a).back t s e x)
  caught-back handler rest k c (raised (exception y z), s) e t h gh gr x =
      omega (arith, (gh (exception y z)).back t s e x)
  caught-back handler rest k c (raised (base_exception y z), s) e t h gh gr x = h

  pub Gives-try :
      {A B : Type 0} {m : Exec S A} {handler : Exn → Exec S B} {rest : A → Exec S B} {k : ℕ}
      → Keeps count m
      → ((e : Exn) → Gives strict count k (handler e))
      → ((a : A) → Gives strict count k (rest a))
      → Gives strict count k (try_except m handler rest)
  Gives-try {m = m} {handler} {rest} {k} km gh gr = record {
    at = λ s b e. caught-Gives handler rest k (count s) (m s) b (km.at s) gh gr e;
    back = λ t s e x. caught-back handler rest k (count s) (m s) e t (km.at s) gh gr x;
  }

  pub Gives-if :
      {A : Type 0} {m l : Exec S A} {n : ℕ} (b : Bool)
      → Gives strict count n m
      → Gives strict count n l
      → Gives strict count n (if b then m else l)
  Gives-if true gm gl = gm
  Gives-if false gm gl = gl

module _ {S : Type 0} (count : S → ℕ) where
  resume-adds :
      {A B : Type 0} (f : A → Exec S B) (c n : ℕ) (r : Result A × S) (b : B)
      → ((a : A) → r.0 ≡ ok a → count r.1 ≡ c + n)
      → ((a : A) → Keeps count (f a))
      → (resume f r).0 ≡ ok b
      → count (resume f r).1 ≡ c + n
  resume-adds f c n (ok a, s) b h k e = omega (arith, h a refl, (k a).at s)
  resume-adds f c n (raised x, s) b h k e = absurd (cc)

  -- A last part that keeps the number, and may raise after the first has added to it.
  pub Gives-and :
      {A B : Type 0} {m : Exec S A} {f : A → Exec S B} {n : ℕ}
      → Gives false count n m
      → ((a : A) → Keeps count (f a))
      → Gives false count n (m >>= f)
  Gives-and {m = m} {f} {n} gm kf = record {
    at = λ s b e. resume-adds f (count s) n (m s) b (gm.at s) kf e;
    back = λ t s e x. absurd (cc);
  }

  pub Keeps-pure : {A : Type 0} (a : A) → Keeps count (pure a)
  Keeps-pure a = record { at = λ s. refl }

  resume-Keeps :
      {A B : Type 0} (f : A → Exec S B) (c : ℕ) (r : Result A × S)
      → count r.1 ≡ c
      → ((a : A) → Keeps count (f a))
      → count (resume f r).1 ≡ c
  resume-Keeps f c (ok a, s) h k = omega (arith, (k a).at s)
  resume-Keeps f c (raised e, s) h k = h

  pub Keeps-bind :
      {A B : Type 0} {m : Exec S A} {f : A → Exec S B}
      → Keeps count m
      → ((a : A) → Keeps count (f a))
      → Keeps count (m >>= f)
  Keeps-bind {m = m} {f} k kf = record { at = λ s. resume-Keeps f (count s) (m s) (k.at s) kf }

  caught-Keeps :
      {A B : Type 0} (handler : Exn → Exec S B) (rest : A → Exec S B) (c : ℕ) (r : Result A × S)
      → count r.1 ≡ c
      → ((e : Exn) → Keeps count (handler e))
      → ((a : A) → Keeps count (rest a))
      → count (caught handler rest r).1 ≡ c
  caught-Keeps handler rest c (ok a, s) h kh kr = omega (arith, (kr a).at s)
  caught-Keeps handler rest c (raised (exception x y), s) h kh kr =
      omega (arith, (kh (exception x y)).at s)
  caught-Keeps handler rest c (raised (base_exception x y), s) h kh kr = h

  pub Keeps-try :
      {A B : Type 0} {m : Exec S A} {handler : Exn → Exec S B} {rest : A → Exec S B}
      → Keeps count m
      → ((e : Exn) → Keeps count (handler e))
      → ((a : A) → Keeps count (rest a))
      → Keeps count (try_except m handler rest)
  Keeps-try {m = m} {handler} {rest} k kh kr = record {
    at = λ s. caught-Keeps handler rest (count s) (m s) (k.at s) kh kr;
  }

  pub Keeps-if :
      {A : Type 0} {m l : Exec S A} (b : Bool)
      → (b ≡ true → Keeps count m)
      → (b ≡ false → Keeps count l)
      → Keeps count (if b then m else l)
  Keeps-if true km kl = km refl
  Keeps-if false km kl = kl refl
