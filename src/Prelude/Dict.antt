-- ===== src/Prelude/Dict.antt =====
-- A Python dictionary with text keys: an association list in insertion order. Writing a key that is
-- there keeps its place.
use Prim.Native.String.{String}
use mathlib.Core.Path.{refl, ◌≡◌}
use mathlib.Core.Bool.{Bool, false, true}
use mathlib.Core.Option.{none, Option, some}
use mathlib.Core.List.{[], List, ◌∷◌}
use native.Mathlib.Omega.{arith}
use text.Mathlib.Text.{◌==◌}
use text.Mathlib.TextEquality.{eq_iff}
use mathlib.Core.Logic.{inl, inr}
use hire_os_be.Prelude.Tests.{Bool-cases, if◌then◌else◌}

abbrev pub Dict {ℓ} : Type ℓ → Type ℓ
Dict V = List (String × V)

module _ {ℓ} {V : Type ℓ} where
  -- `d.get(k)`
  unfoldable pub get : String → Dict V → Option V
  get k [] = none
  get k ((j, v) ∷ d) = if j == k then some v else get k d

  -- `k in d`
  unfoldable pub has : String → Dict V → Bool
  has k [] = false
  has k ((j, v) ∷ d) = if j == k then true else has k d

  -- `d[k] = v`
  unfoldable pub put : String → V → Dict V → Dict V
  put k v [] = (k, v) ∷ []
  put k v ((j, w) ∷ d) = if j == k then (j, v) ∷ d else (j, w) ∷ put k v d

  -- `d.pop(k, None)`; at most one entry has the key.
  unfoldable pub remove : String → Dict V → Dict V
  remove k [] = []
  remove k ((j, w) ∷ d) = let rest = remove k d in if j == k then rest else (j, w) ∷ rest

  -- `d.update(pairs)`
  unfoldable pub update : List (String × V) → Dict V → Dict V
  unfolding put
  update [] d = d
  update ((k, v) ∷ more) d = update more (put k v d)

  pub get-put :
      (k j : String) (v : V) (d : Dict V) → get j (put k v d) ≡ (if k == j then some v else get j d)
  unfolding get put
  get-put k j v [] = refl
  get-put k j v ((i, w) ∷ d) = ground (arith, eq_iff i k, eq_iff i j, eq_iff k j, get-put k j v d)

  pub get-remove :
      (k j : String) (d : Dict V) → get j (remove k d) ≡ (if k == j then none else get j d)
  unfolding get remove
  get-remove k j [] = ground arith
  get-remove k j ((i, w) ∷ d) = ground (arith, eq_iff i k, eq_iff i j, eq_iff k j, get-remove k j d)

  pub has-put :
      (k j : String) (v : V) (d : Dict V) → has j (put k v d) ≡ (if k == j then true else has j d)
  unfolding has put
  has-put k j v [] = refl
  has-put k j v ((i, w) ∷ d) = ground (arith, eq_iff i k, eq_iff i j, eq_iff k j, has-put k j v d)

  pub has-remove :
      (k j : String) (d : Dict V) → has j (remove k d) ≡ (if k == j then false else has j d)
  unfolding has remove
  has-remove k j [] = ground arith
  has-remove k j ((i, w) ∷ d) = ground (arith, eq_iff i k, eq_iff i j, eq_iff k j, has-remove k j d)

  pub has-get : (k : String) (d : Dict V) → has k d ≡ true → (v : V) × (get k d ≡ some v)
  unfolding has get
  has-get k [] h = ground arith
  has-get k ((j, w) ∷ d) h = elim (Bool-cases (j == k)) [
    | inl e ↦ (w, rw e)
    | inr e ↦ let (v, g) = has-get k d (rw e at h) in (v, rw e g)
  ]

  pub get-none : (k : String) (d : Dict V) → has k d ≡ false → get k d ≡ none
  unfolding has get
  get-none k [] h = refl
  get-none k ((j, w) ∷ d) h = ground (arith, get-none k d)

  pub get-has : (k : String) (d : Dict V) (v : V) → get k d ≡ some v → has k d ≡ true
  unfolding has get
  get-has k [] v h = ground arith
  get-has k ((j, w) ∷ d) v h = ground (arith, get-has k d v)
