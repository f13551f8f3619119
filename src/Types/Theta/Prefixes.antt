-- ===== src/Types/Theta/Prefixes.antt =====
-- The names that start with a prefix, and the parts that follow it.
use shark_platform.Prelude.{
  ◌≡◌, ◌≢◌, refl, sym, ◌∙◌, Bool, true, false, Option, none, some, List, [], ◌∷◌, ◌++◌, arith,
  list_eq, list_eq_iff, ◌==◌, ==_iff, if◌then◌else◌, Bool-cases, Option-cases, inl, inr,
}
use shark_platform.Types.Names.{
  Text, dot, DotFree, split, join, join-split, split-whole, split-first,
}
use shark_platform.Types.Theta.{new_prefix}

-- What follows a prefix.
unfoldable pub strip : Text → Text → Option Text
strip [] name = some name
strip (c ∷ p) [] = none
strip (c ∷ p) (d ∷ name) = let rest = strip p name in if c == d then rest else none

-- What follows a key and a dot, if there is a name.
abbrev pub after : Text → Option Text → Option Text
after k none = none
after k (some u) = strip (k ++ dot ∷ []) u

-- What follows the prefix of a dictionary.
abbrev pub under : Text → Text → Option Text
under [] name = some name
under (c ∷ p) name = after (c ∷ p) (some name)

abbrev pub is_text : Text → Option Text → Bool
is_text k none = false
is_text k (some u) = list_eq k u

is_text-strip :
    (a k name : Text) → list_eq (a ++ dot ∷ k) name ≡ is_text k (strip (a ++ dot ∷ []) name)
unfolding strip list_eq
is_text-strip [] k [] = refl
is_text-strip [] k (d ∷ name) = ground arith
is_text-strip (c ∷ a) k [] = refl
is_text-strip (c ∷ a) k (d ∷ name) = elim (Bool-cases (c == d)) [
  | inl e ↦ rw e (is_text-strip a k name)
  | inr e ↦ rw e refl
]

after-strip :
    (a k name : Text)
    → strip ((a ++ dot ∷ k) ++ dot ∷ []) name ≡ after k (strip (a ++ dot ∷ []) name)
unfolding strip
after-strip [] k [] = refl
after-strip [] k (d ∷ name) = elim (Bool-cases (dot == d)) [ inl e ↦ rw e refl | inr e ↦ rw e refl ]
after-strip (c ∷ a) k [] = refl
after-strip (c ∷ a) k (d ∷ name) = elim (Bool-cases (c == d)) [
  | inl e ↦ rw e (after-strip a k name)
  | inr e ↦ rw e refl
]

-- A name is the one of a key, or goes on after it.
pub is_text-under :
    (prefix k name : Text) → list_eq (new_prefix prefix k) name ≡ is_text k (under prefix name)
is_text-under [] k name = refl
is_text-under (c ∷ p) k name = is_text-strip (c ∷ p) k name

pub after-under :
    (prefix k name : Text)
    → new_prefix prefix k ≢ []
    → under (new_prefix prefix k) name ≡ after k (under prefix name)
after-under [] [] name h = absurd (h refl)
after-under [] (d ∷ k) name h = refl
after-under (c ∷ p) k name h = after-strip (c ∷ p) k name

strip-key : (k w : Text) → strip (k ++ dot ∷ []) (k ++ dot ∷ w) ≡ some w
unfolding strip
strip-key [] w = refl
strip-key (c ∷ k) w = rw ((==_iff c c).1 refl) (strip-key k w)

strip-some : (a u w : Text) → strip (a ++ dot ∷ []) u ≡ some w → u ≡ a ++ dot ∷ w
unfolding strip
strip-some [] [] w h = absurd (cc)
strip-some [] (d ∷ u) w h = elim (Bool-cases (dot == d)) [
  | inl e ↦
      let found : some u ≡ some w = rw e at h in
      let tail : u ≡ w = cc in rw (tail, ← (==_iff dot d).0 e) refl
  | inr e ↦ let found : none ≡ some w = rw e at h in absurd (cc)
]
strip-some (c ∷ a) [] w h = absurd (cc)
strip-some (c ∷ a) (d ∷ u) w h = elim (Bool-cases (c == d)) [
  | inl e ↦
      let found : strip (a ++ dot ∷ []) u ≡ some w = rw e at h in
      rw (strip-some a u w found, (==_iff c d).0 e) refl
  | inr e ↦ let found : none ≡ some w = rw e at h in absurd (cc)
]

longer : (k w : Text) → list_eq k (k ++ dot ∷ w) ≡ false
unfolding list_eq
longer [] w = refl
longer (c ∷ k) w = rw ((==_iff c c).1 refl) (longer k w)

-- A key that is the first part of a name is the name, or is followed by a dot in it.
first_part :
    (k u : Text) (p : Text × List Text)
    → join p.0 p.1 ≡ u
    → k ≡ p.0
    → strip (k ++ dot ∷ []) u ≡ none
    → list_eq k u ≡ false
    → ⊥
unfolding join
first_part k u (j, []) e f none_after differ =
    let whole : k ≡ u = f ∙ e in absurd (cc (differ, (list_eq_iff k u).1 whole))
first_part k u (j, q ∷ qs) e f none_after differ =
    let shape : u ≡ k ++ dot ∷ join q qs = rw f (sym e) in
    let found : strip (k ++ dot ∷ []) u ≡ some (join q qs) = rw shape (strip-key k (join q qs)) in
    absurd (cc)

-- How a name stands to a key without a dot.
pub data Cut (k u : Text) : Type 0 where
  same : list_eq k u ≡ true → after k (some u) ≡ none → split u ≡ (k, []) → Cut k u
  below :
      (w : Text)
      → list_eq k u ≡ false
      → after k (some u) ≡ some w
      → split u ≡ (k, (split w).0 ∷ (split w).1)
      → Cut k u
  other : list_eq k u ≡ false → after k (some u) ≡ none → list_eq k (split u).0 ≡ false → Cut k u

pub cut : (k u : Text) → DotFree k → Cut k u
cut k u h = elim (Option-cases (strip (k ++ dot ∷ []) u)) [
  | inr (w, e) ↦
      let shape : u ≡ k ++ dot ∷ w = strip-some k u w e in
      below w (rw shape (longer k w)) e (rw shape (split-first k w h))
  | inl e ↦ elim (Bool-cases (list_eq k u)) [
    | inl f ↦ same f e (rw (← (list_eq_iff k u).0 f) (split-whole k h))
    | inr f ↦ other f e (elim (Bool-cases (list_eq k (split u).0)) [
      | inr g ↦ g
      | inl g ↦ absurd (first_part k u (split u) (join-split u) ((list_eq_iff k _).0 g) e f)
    ])
  ]
]
