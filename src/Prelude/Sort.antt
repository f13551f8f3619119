-- ===== src/Prelude/Sort.antt =====
-- Python's `sorted`: a stable sort by a test that tells whether an entry comes before another one.
use mathlib.Core.List.{Perm}
use mathlib.Core.List.Perm
use shark_platform.Prelude.Tests.{if◌then◌else◌, Bool-cases}
use shark_platform.Prelude.Lists.{All}
use mathlib.Core.Path.{◌≡◌}
use mathlib.Core.Logic.{inl, inr}
use mathlib.Core.Bool.{Bool, true, false}
use mathlib.Core.List.{List, [], ◌∷◌}

module _ {ℓ} {A : Type ℓ} (lt : A → A → Bool) where
  -- Before the first entry that does not come before it.
  unfoldable pub insert_sorted : A → List A → List A
  insert_sorted x [] = x ∷ []
  insert_sorted x (y ∷ ys) =
      let rest = insert_sorted x ys in if lt y x then y ∷ rest else x ∷ y ∷ ys

  unfoldable pub sorted : List A → List A
  sorted [] = []
  sorted (x ∷ xs) = insert_sorted x (sorted xs)

  insert_sorted-Perm : (x : A) (xs : List A) → Perm (insert_sorted x xs) (x ∷ xs)
  unfolding insert_sorted
  insert_sorted-Perm x [] = Perm.refl _
  insert_sorted-Perm x (y ∷ ys) = elim (Bool-cases (lt y x)) [
    | inl e ↦ rw e (Perm.trans (Perm.cons y (insert_sorted-Perm x ys)) (Perm.swap x y ys))
    | inr e ↦ rw e (Perm.refl (x ∷ y ∷ ys))
  ]

  pub sorted-Perm : (xs : List A) → Perm (sorted xs) xs
  unfolding sorted
  sorted-Perm [] = Perm.nil
  sorted-Perm (x ∷ xs) =
      Perm.trans (insert_sorted-Perm x (sorted xs)) (Perm.cons x (sorted-Perm xs))

  insert_sorted-All {κ} :
      (Q : A → Type κ) (x : A) (xs : List A) → Q x → All Q xs → All Q (insert_sorted x xs)
  unfolding insert_sorted
  insert_sorted-All Q x [] q _ = (q, tt)
  insert_sorted-All Q x (y ∷ ys) q (a, rest) = elim (Bool-cases (lt y x)) [
    | inl e ↦ rw e (a, insert_sorted-All Q x ys q rest)
    | inr e ↦ rw e (q, (a, rest))
  ]

  pub sorted-All {κ} : (Q : A → Type κ) (xs : List A) → All Q xs → All Q (sorted xs)
  unfolding sorted
  sorted-All Q [] _ = tt
  sorted-All Q (x ∷ xs) (q, qs) = insert_sorted-All Q x (sorted xs) q (sorted-All Q xs qs)

-- Every entry is related to all that come after it.
abbrev pub IsSortedBy {ℓ κ} : {A : Type ℓ} → (A → A → Type κ) → List A → Type κ
IsSortedBy R [] = Unit
IsSortedBy R (x ∷ xs) = All (R x) xs × IsSortedBy R xs

-- What a test has to do with an order, for entries with a property.
pub record Decides {ℓ κ} {A : Type ℓ} (P : A → Type κ) (R : A → A → Type κ) (lt : A → A → Bool)
    : Type (ℓ ⊔ κ) where
  pub before : (x y : A) → P x → P y → lt x y ≡ true → R x y
  pub not_before : (x y : A) → P x → P y → lt x y ≡ false → R y x
  pub through : (x y z : A) → P y → R x y → R y z → R x z

module _ {ℓ κ} {A : Type ℓ} {P : A → Type κ} {R : A → A → Type κ} {lt : A → A → Bool}
    (order : Decides P R lt) where
  All-through : (x y : A) (zs : List A) → P y → R x y → All (R y) zs → All (R x) zs
  All-through x y [] p h _ = tt
  All-through x y (z ∷ zs) p h (a, rest) = (order.through x y z p h a, All-through x y zs p h rest)

  insert_sorted-IsSortedBy :
      (x : A) (xs : List A)
      → P x
      → All P xs
      → IsSortedBy R xs
      → IsSortedBy R (insert_sorted lt x xs)
  unfolding insert_sorted
  insert_sorted-IsSortedBy x [] p _ _ = (tt, tt)
  insert_sorted-IsSortedBy x (y ∷ ys) p (q, ps) (a, h) = elim (Bool-cases (lt y x)) [
    | inl e ↦ rw e (
      insert_sorted-All lt (R y) x ys (order.before y x q p e) a,
      insert_sorted-IsSortedBy x ys p ps h,
    )
    | inr e ↦
        let first = order.not_before y x q p e in
        rw e ((first, All-through x y ys q first a), (a, h))
  ]

  pub sorted-IsSortedBy : (xs : List A) → All P xs → IsSortedBy R (sorted lt xs)
  unfolding sorted
  sorted-IsSortedBy [] _ = tt
  sorted-IsSortedBy (x ∷ xs) (p, ps) =
      insert_sorted-IsSortedBy x (sorted lt xs) p (sorted-All lt P xs ps) (sorted-IsSortedBy xs ps)
