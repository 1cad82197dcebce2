-- ===== src/Prelude/Exec/Preserves.antt =====
-- Coroutines that preserve a property of the state, whether they return or raise: one rule for each
-- way to build a coroutine.
use message_deduplication_id.Prelude.{Bool, true, false, if◌then◌else◌}
use message_deduplication_id.Prelude.Exec.{
  Exn, exception, base_exception, Result, ok, raised, Exec, pure, resume, caught, ◌>>=◌, try_except,
}

pub record Preserves {S A : Type 0} (P : S → Type 0) (m : Exec S A) : Type 0 where
  pub at : (s : S) → P s → P (m s).1

module _ {S : Type 0} (P : S → Type 0) where
  pub Preserves-pure : {A : Type 0} (a : A) → Preserves P (pure a)
  Preserves-pure a = record { at = λ s h. h }

  resume-Preserves :
      {A B : Type 0} (f : A → Exec S B) (r : Result A × S)
      → P r.1
      → ((a : A) → Preserves P (f a))
      → P (resume f r).1
  resume-Preserves f (ok a, s) h k = (k a).at s h
  resume-Preserves f (raised e, s) h k = h

  pub Preserves-bind :
      {A B : Type 0} {m : Exec S A} {f : A → Exec S B}
      → Preserves P m
      → ((a : A) → Preserves P (f a))
      → Preserves P (m >>= f)
  Preserves-bind {m = m} {f} k kf = record { at = λ s h. resume-Preserves f (m s) (k.at s h) kf }

  caught-Preserves :
      {A B : Type 0} (handler : Exn → Exec S B) (rest : A → Exec S B) (r : Result A × S)
      → P r.1
      → ((e : Exn) → Preserves P (handler e))
      → ((a : A) → Preserves P (rest a))
      → P (caught handler rest r).1
  caught-Preserves handler rest (ok a, s) h kh kr = (kr a).at s h
  caught-Preserves handler rest (raised (exception x y), s) h kh kr = (kh (exception x y)).at s h
  caught-Preserves handler rest (raised (base_exception x y), s) h kh kr = h

  pub Preserves-try :
      {A B : Type 0} {m : Exec S A} {handler : Exn → Exec S B} {rest : A → Exec S B}
      → Preserves P m
      → ((e : Exn) → Preserves P (handler e))
      → ((a : A) → Preserves P (rest a))
      → Preserves P (try_except m handler rest)
  Preserves-try {m = m} {handler} {rest} k kh kr = record {
    at = λ s h. caught-Preserves handler rest (m s) (k.at s h) kh kr;
  }

  pub Preserves-if :
      {A : Type 0} {m l : Exec S A} (b : Bool)
      → Preserves P m
      → Preserves P l
      → Preserves P (if b then m else l)
  Preserves-if true km kl = km
  Preserves-if false km kl = kl
