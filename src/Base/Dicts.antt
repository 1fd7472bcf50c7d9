-- ===== src/Base/Dicts.antt =====
-- Python's `dict` as an association list; a key stands in it once.
use mathlib.Core.Path.{◌≡◌, refl}
use mathlib.Core.Option.{Option, none, some}
use mathlib.Core.List.{List, [], ◌∷◌}
use native.Mathlib.Omega.{arith}
use code_migrator.Base.Tests.{PyEq, ◌==◌, if◌then◌else◌}

-- The value at a key, or the default: `d.get(k, v)` is `get_or v (get k d)`.
abbrev pub get_or {ℓ} : {V : Type ℓ} → V → Option V → V
get_or v none = v
get_or v (some w) = w

module _ {ℓ κ} {K : Type ℓ} {V : Type κ} ⦃e : PyEq K⦄ where
  -- `d.get(k)`
  unfoldable pub get : K → List (K × V) → Option V
  get k [] = none
  get k ((j, v) ∷ d) = if j == k then some v else get k d

  -- `d[k] = v`
  unfoldable pub put : K → V → List (K × V) → List (K × V)
  put k v [] = (k, v) ∷ []
  put k v ((j, w) ∷ d) = if j == k then (k, v) ∷ d else (j, w) ∷ put k v d

  -- `d.pop(k, None)`
  unfoldable pub pop : K → List (K × V) → List (K × V)
  pop k [] = []
  pop k ((j, w) ∷ d) = let rest = pop k d in if j == k then rest else (j, w) ∷ rest

  pub get-put :
      (k j : K) (v : V) (d : List (K × V))
      → get j (put k v d) ≡ (if k == j then some v else get j d)
  unfolding get put
  get-put k j v [] = refl
  get-put k j v ((i, w) ∷ d) =
      ground (arith, get-put k j v d, e.equals_iff i k, e.equals_iff i j, e.equals_iff k j)

  pub get-pop : (k j : K) (d : List (K × V)) → get j (pop k d) ≡ (if k == j then none else get j d)
  unfolding get pop
  get-pop k j [] = ground arith
  get-pop k j ((i, w) ∷ d) =
      ground (arith, get-pop k j d, e.equals_iff i k, e.equals_iff i j, e.equals_iff k j)
