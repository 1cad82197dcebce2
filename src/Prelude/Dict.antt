-- ===== src/Prelude/Dict.antt =====
-- Python's `dict` with string keys, in insertion order. Clients reason by the laws in `if` form.
use message_deduplication_id.Prelude.{
  suc, String, ◌≡◌, refl, Option, none, some, List, [], ◌∷◌, arith, ◌==◌, length, if◌then◌else◌,
}

abbrev pub Dict {ℓ} : Type ℓ → Type ℓ
Dict V = List (String × V)

module _ {ℓ} {V : Type ℓ} where
  -- `d.get(k)`; also `k in d`, as `some _`
  unfoldable pub get : Dict V → String → Option V
  get [] k = none
  get ((j, v) ∷ d) k = if k == j then some v else get d k

  -- `d[k] = v`: an old key keeps its place, a new one goes to the end
  unfoldable pub put : Dict V → String → V → Dict V
  put [] k v = (k, v) ∷ []
  put ((j, w) ∷ d) k v = if k == j then (k, v) ∷ d else (j, w) ∷ put d k v

  -- `d.pop(k, None)`
  unfoldable pub remove : Dict V → String → Dict V
  remove [] k = []
  remove ((j, w) ∷ d) k = let rest = remove d k in if k == j then rest else (j, w) ∷ rest

  pub get-put :
      (d : Dict V) (k j : String) (v : V) → get (put d k v) j ≡ (if j == k then some v else get d j)
  unfolding get put
  get-put [] k j v = refl
  get-put (_ ∷ d) k j v = ground (arith, get-put d k j v)

  pub get-remove :
      (d : Dict V) (k j : String) → get (remove d k) j ≡ (if j == k then none else get d j)
  unfolding get remove
  get-remove [] k j = ground arith
  get-remove (_ ∷ d) k j = ground (arith, get-remove d k j)

  -- An overwrite keeps the size, and a new key adds one.
  pub length-put :
      (d : Dict V) (k : String) (v : V)
      → length (put d k v) ≡ elim (get d k) [ none ↦ suc (length d) | some _ ↦ length d ]
  unfolding get put
  length-put [] k v = refl
  length-put (_ ∷ d) k v = ground (arith, length-put d k v)

pub get-empty {ℓ} : {V : Type ℓ} (k : String) → get {V = V} [] k ≡ none
unfolding get
get-empty k = refl

pub ruleset dict_laws = (get-empty, get-put, get-remove)
