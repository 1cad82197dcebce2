-- ===== src/Prelude/Exec.antt =====
-- Coroutines that read and write a shared state and may raise. What was written before a raise
-- stays written, so the state comes back beside the exception too.
pub mod Adds
pub mod Gives
pub mod Preserves
use message_deduplication_id.Prelude.{String, ◌≡◌, refl, ◌⊎◌, inl, inr}

-- `name` is `type(exc).__name__` and `message` is `str(exc)`. `except Exception` does not catch the
-- exceptions that derive from `BaseException` only, such as the cancellation of a task.
pub data Exn : Type 0 where
  exception : String → String → Exn
  base_exception : String → String → Exn

pub data Result {ℓ} (A : Type ℓ) : Type ℓ where
  ok : A → Result A
  raised : Exn → Result A

abbrev pub Exec {ℓ} : Type ℓ → Type ℓ → Type ℓ
Exec S A = S → Result A × S

abbrev pub pure {ℓ} : {S A : Type ℓ} → A → Exec S A
pure a s = (ok a, s)

abbrev pub raise {ℓ} : {S A : Type ℓ} → Exn → Exec S A
raise e s = (raised e, s)

-- The rest of a coroutine, from the outcome of its first part.
abbrev pub resume {ℓ} : {S A B : Type ℓ} → (A → Exec S B) → Result A × S → Result B × S
resume f (ok a, s) = f a s
resume f (raised e, s) = (raised e, s)

infixl 10 ◌>>=◌ ◌>>◌
abbrev pub ◌>>=◌ {ℓ} : {S A B : Type ℓ} → Exec S A → (A → Exec S B) → Exec S B
◌>>=◌ m f s = resume f (m s)

abbrev pub ◌>>◌ {ℓ} : {S A B : Type ℓ} → Exec S A → Exec S B → Exec S B
m >> n = m >>= λ _. n

-- `try: a = m … except Exception as exc: handler(exc)`, and `rest(a)` after it where nothing was
-- raised: the exceptions of `rest` are not caught.
abbrev pub caught {ℓ} :
    {S A B : Type ℓ} → (Exn → Exec S B) → (A → Exec S B) → Result A × S → Result B × S
caught handler rest (ok a, s) = rest a s
caught handler rest (raised (exception n m), s) = handler (exception n m) s
caught handler rest (raised (base_exception n m), s) = (raised (base_exception n m), s)

abbrev pub try_except {ℓ} :
    {S A B : Type ℓ} → Exec S A → (Exn → Exec S B) → (A → Exec S B) → Exec S B
try_except m handler rest s = caught handler rest (m s)

abbrev pub exn_name : Exn → String
exn_name (exception n m) = n
exn_name (base_exception n m) = n

abbrev pub exn_message : Exn → String
exn_message (exception n m) = m
exn_message (base_exception n m) = m

pub Result-cases {ℓ} :
    {A : Type ℓ} (r : Result A) → ((a : A) × (r ≡ ok a)) ⊎ ((e : Exn) × (r ≡ raised e))
Result-cases (ok a) = inl (a, refl)
Result-cases (raised e) = inr (e, refl)

-- Both parts of a coroutine that returned have returned.
pub resume-returned {ℓ} :
    {S A B : Type ℓ} (f : A → Exec S B) (r : Result A × S) (b : B)
    → (resume f r).0 ≡ ok b
    → (a : A) × (r.0 ≡ ok a) × (resume f r ≡ f a r.1)
resume-returned f (ok a, s) b h = (a, refl, refl)
resume-returned f (raised e, s) b h = absurd (cc)

pub resume-ok {ℓ} :
    {S A B : Type ℓ} (f : A → Exec S B) (r : Result A × S) (a : A)
    → r.0 ≡ ok a
    → resume f r ≡ f a r.1
resume-ok f (ok b, s) a h = cc
resume-ok f (raised e, s) a h = absurd (cc)

pub resume-raised {ℓ} :
    {S A B : Type ℓ} (f : A → Exec S B) (r : Result A × S) (e : Exn)
    → r.0 ≡ raised e
    → resume f r ≡ (raised e, r.1)
resume-raised f (ok a, s) e h = absurd (cc)
resume-raised f (raised x, s) e h = cc

pub outcome {ℓ} :
    {A S : Type ℓ} (r : Result A × S) (x : Result A) (s : S) → r.0 ≡ x → s ≡ r.1 → r ≡ (x, s)
outcome (y, t) x s e f = rw (e, f) refl
