-- ===== src/Prelude/Count.antt =====
-- Multiplicity of a number in a list, and sums over a list with one entry replaced.
use Prim.Native.Nat.{ℕ, zero, suc, ◌+◌, ◌≤◌, ◌<◌}
use mathlib.Core.Path.{◌≡◌, refl}
use mathlib.Core.List.{List, [], ◌∷◌, ◌++◌}
use native.Mathlib.Omega.{arith}
use shark_platform.Prelude.Tests.{◌==◌, if◌then◌else◌}
use shark_platform.Prelude.Lists.{length, get_or, set}

abbrev pub count : ℕ → List ℕ → ℕ
count p [] = 0
count p (q ∷ more) = (if q == p then 1 else 0) + count p more

pub count-append :
    (p : ℕ) (some_of rest : List ℕ) → count p (some_of ++ rest) ≡ count p some_of + count p rest
count-append p [] rest = omega arith
count-append p (q ∷ more) rest = omega (arith, count-append p more rest)

module _ {ℓ} {A : Type ℓ} where
  -- The sum of a weight over a list.
  abbrev pub total : (A → ℕ) → List A → ℕ
  total w [] = 0
  total w (x ∷ xs) = w x + total w xs

  pub total-append : (w : A → ℕ) (xs ys : List A) → total w (xs ++ ys) ≡ total w xs + total w ys
  total-append w [] ys = omega arith
  total-append w (x ∷ xs) ys = omega (arith, total-append w xs ys)

  pub total-set :
      (w : A → ℕ) (xs : List A) (i : ℕ) (v d : A)
      → i < length xs
      → total w (set xs i v) + w (get_or xs i d) ≡ total w xs + w v
  total-set w [] i v d h = elim h [ ]
  total-set w (x ∷ xs) zero v d h = omega arith
  total-set w (x ∷ xs) (suc i) v d h = omega (arith, total-set w xs i v d (omega arith))

  pub get_or-le-total :
      (w : A → ℕ) (xs : List A) (i : ℕ) (d : A) → i < length xs → w (get_or xs i d) ≤ total w xs
  get_or-le-total w [] i d h = elim h [ ]
  get_or-le-total w (x ∷ xs) zero d h = omega arith
  get_or-le-total w (x ∷ xs) (suc i) d h = omega (arith, get_or-le-total w xs i d (omega arith))

module _ {ℓ} {A : Type ℓ} where
  -- Lists of one length with equal weights at each place have one sum.
  pub total-pointwise :
      (w : A → ℕ) (xs ys : List A) (d : A)
      → length ys ≡ length xs
      → ((i : ℕ) → w (get_or ys i d) ≡ w (get_or xs i d))
      → total w ys ≡ total w xs
  total-pointwise w [] [] d n h = refl
  total-pointwise w [] (y ∷ ys) d n h = absurd (omega arith)
  total-pointwise w (x ∷ xs) [] d n h = absurd (omega arith)
  total-pointwise w (x ∷ xs) (y ∷ ys) d n h =
      omega (arith, h 0, total-pointwise w xs ys d (omega arith) (λ i. h (suc i)))
