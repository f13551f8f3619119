-- ===== src/Prelude/Dict.antt =====
-- A Python dict whose keys are tuples of token ids, as an association list in insertion order.
use Prim.Native.Nat.{ℕ}
use mathlib.Core.Path.{◌≡◌, refl}
use mathlib.Core.List.{List, [], ◌∷◌}
use mathlib.Core.Option.{Option, none, some}
use native.Mathlib.Omega.{arith}
use shark_platform.Prelude.Tests.{list_eq, list_eq_iff, if◌then◌else◌}

module _ {ℓ} {V : Type ℓ} where
  unfoldable pub get : List ℕ → List (List ℕ × V) → Option V
  get k [] = none
  get k ((j, v) ∷ m) = if list_eq j k then some v else get k m

  unfoldable pub put : List ℕ → V → List (List ℕ × V) → List (List ℕ × V)
  put k v [] = (k, v) ∷ []
  put k v ((j, w) ∷ m) = if list_eq j k then (j, v) ∷ m else (j, w) ∷ put k v m

  -- `del d[k]`, whose `KeyError` the caller models
  unfoldable pub remove : List ℕ → List (List ℕ × V) → List (List ℕ × V)
  remove k [] = []
  remove k ((j, v) ∷ m) = let rest = remove k m in if list_eq j k then rest else (j, v) ∷ rest

  pub get-nil : (k : List ℕ) → ◌≡◌ {A = Option V} (get k []) none
  unfolding get
  get-nil k = refl

  pub get-put :
      (k j : List ℕ) (v : V) (m : List (List ℕ × V))
      → get j (put k v m) ≡ (if list_eq k j then some v else get j m)
  unfolding get put
  get-put k j v [] = refl
  get-put k j v ((i, w) ∷ m) =
      ground (arith, list_eq_iff k j, list_eq_iff i k, list_eq_iff i j, get-put k j v m)

  pub get-remove :
      (k j : List ℕ) (m : List (List ℕ × V))
      → get j (remove k m) ≡ (if list_eq k j then none else get j m)
  unfolding get remove
  get-remove k j [] = ground arith
  get-remove k j ((i, w) ∷ m) =
      ground (arith, list_eq_iff k j, list_eq_iff i k, list_eq_iff i j, get-remove k j m)
