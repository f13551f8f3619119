-- ===== src/Ops/Ranking.antt =====
-- The order in which `SignatureDispatcher` keeps its overrides: by salience, and as they came among
-- equals. What is kept is compared with the overrides as they were registered, the latest first.
use shark_platform.Prelude.{
  ◌≡◌, refl, Bool, true, false, ◌||◌, Option, none, some, List, [], ◌∷◌, ◌++◌, arith, All,
  if◌then◌else◌, inl, inr, Bool-cases,
}
use shark_platform.Prelude.Int.{leb_ℤ, ◌≤ℤ◌}
use shark_platform.Ops.{TargetOverride, place, sort_by_salience}

unfoldable pub enter : TargetOverride → List TargetOverride → List TargetOverride
enter o [] = o ∷ []
enter o (x ∷ xs) =
    let rest = enter o xs in if leb_ℤ x.salience o.salience then x ∷ rest else o ∷ x ∷ xs

unfoldable pub ranked : List TargetOverride → List TargetOverride
ranked [] = []
ranked (o ∷ earlier) = enter o (ranked earlier)

abbrev pub IsAbove : TargetOverride → TargetOverride → Type 0
IsAbove x y = x.salience ≤ℤ y.salience

abbrev pub IsSorted : List TargetOverride → Type 0
IsSorted [] = Unit
IsSorted (x ∷ xs) = All (IsAbove x) xs × IsSorted xs

abbrev pub later : Option TargetOverride → Option TargetOverride → Option TargetOverride
later (some y) x = some y
later none x = x

-- The last override of a list that passes a test.
unfoldable pub last_hit : (TargetOverride → Bool) → List TargetOverride → Option TargetOverride
last_hit p [] = none
last_hit p (x ∷ xs) = later (last_hit p xs) (if p x then some x else none)

unfoldable pub any : (TargetOverride → Bool) → List TargetOverride → Bool
any p [] = false
any p (x ∷ xs) = p x || any p xs

-- A new override takes the place of the best one that is not more salient.
abbrev pub challenge : Option TargetOverride → TargetOverride → TargetOverride
challenge none o = o
challenge (some b) o = if leb_ℤ b.salience o.salience then o else b

-- Of the registered overrides that pass a test, the most salient, and the latest of those.
unfoldable pub best : (TargetOverride → Bool) → List TargetOverride → Option TargetOverride
best p [] = none
best p (o ∷ earlier) = let found = best p earlier in if p o then some (challenge found o) else found

enter-All :
    (x o : TargetOverride) (xs : List TargetOverride)
    → IsAbove x o
    → All (IsAbove x) xs
    → All (IsAbove x) (enter o xs)
unfolding enter
enter-All x o [] h _ = (h, tt)
enter-All x o (y ∷ ys) h (a, as_) = ground (arith, enter-All x o ys h as_)

All-trans :
    (x y : TargetOverride) (xs : List TargetOverride)
    → IsAbove x y
    → All (IsAbove y) xs
    → All (IsAbove x) xs
All-trans x y [] h _ = tt
All-trans x y (z ∷ zs) h (a, rest) = (omega arith, All-trans x y zs h rest)

enter-IsSorted :
    (o : TargetOverride) (xs : List TargetOverride) → IsSorted xs → IsSorted (enter o xs)
unfolding enter
enter-IsSorted o [] h = (tt, tt)
enter-IsSorted o (x ∷ xs) (a, h) = elim (Bool-cases (leb_ℤ x.salience o.salience)) [
  | inl e ↦ rw e (enter-All x o xs (ground arith) a, enter-IsSorted o xs h)
  | inr e ↦
      let lower : IsAbove o x = ground arith in rw e ((lower, All-trans o x xs lower a), (a, h))
]

pub ranked-IsSorted : (os : List TargetOverride) → IsSorted (ranked os)
unfolding ranked
ranked-IsSorted [] = tt
ranked-IsSorted (o ∷ os) = enter-IsSorted o (ranked os) (ranked-IsSorted os)

place-enter :
    (x o : TargetOverride) (xs : List TargetOverride)
    → All (IsAbove x) xs
    → place x (enter o xs) ≡ enter o (x ∷ xs)
unfolding place enter
place-enter x o [] _ = refl
place-enter x o (y ∷ ys) (a, _) = ground arith

-- Sorting a sorted list with one override more.
pub sort-append :
    (o : TargetOverride) (xs : List TargetOverride)
    → IsSorted xs
    → sort_by_salience (xs ++ o ∷ []) ≡ enter o xs
unfolding sort_by_salience place enter
sort-append o [] _ = refl
sort-append o (x ∷ xs) (a, h) = rw (sort-append o xs h) (place-enter x o xs a)

abbrev IsAboveFound : TargetOverride → Option TargetOverride → Type 0
IsAboveFound x none = Unit
IsAboveFound x (some b) = IsAbove x b

later-IsAbove :
    (x y : TargetOverride) (found : Option TargetOverride) (b : Bool)
    → IsAbove x y
    → IsAboveFound x found
    → IsAboveFound x (later found (if b then some y else none))
later-IsAbove x y (some z) b h k = k
later-IsAbove x y none true h k = h
later-IsAbove x y none false h k = tt

last_hit-IsAbove :
    (p : TargetOverride → Bool) (x : TargetOverride) (xs : List TargetOverride)
    → All (IsAbove x) xs
    → IsAboveFound x (last_hit p xs)
unfolding last_hit
last_hit-IsAbove p x [] _ = tt
last_hit-IsAbove p x (y ∷ ys) (a, rest) =
    later-IsAbove x y (last_hit p ys) (p y) a (last_hit-IsAbove p x ys rest)

-- What a search finds passes the test.
abbrev pub Passes : (TargetOverride → Bool) → Option TargetOverride → Type 0
Passes p none = Unit
Passes p (some b) = p b ≡ true

later-Passes :
    (p : TargetOverride → Bool) (x : TargetOverride) (found : Option TargetOverride)
    → Passes p found
    → Passes p (later found (if p x then some x else none))
later-Passes p x (some z) h = h
later-Passes p x none h = elim (Bool-cases (p x)) [ inl y ↦ rw y y | inr n ↦ rw n tt ]

pub last_hit-Passes :
    (p : TargetOverride → Bool) (xs : List TargetOverride) → Passes p (last_hit p xs)
unfolding last_hit
last_hit-Passes p [] = tt
last_hit-Passes p (x ∷ xs) = later-Passes p x (last_hit p xs) (last_hit-Passes p xs)

-- A challenger that comes after `x` in the list, and one that comes before what is found.
challenge_after :
    (x o : TargetOverride) (found : Option TargetOverride) (b c : Bool)
    → IsAbove x o
    → later (if c then some (challenge found o) else found) (if b then some x else none)
      ≡ (let m = later found (if b then some x else none) in if c then some (challenge m o) else m)
challenge_after x o (some y) b true h = refl
challenge_after x o (some y) b false h = refl
challenge_after x o none true true h = ground arith
challenge_after x o none true false h = refl
challenge_after x o none false true h = refl
challenge_after x o none false false h = refl

challenge_before :
    (x o : TargetOverride) (found : Option TargetOverride) (c : Bool)
    → leb_ℤ x.salience o.salience ≡ false
    → IsAboveFound x found
    → later found (if c then some o else none) ≡ (if c then some (challenge found o) else found)
challenge_before x o none true h k = refl
challenge_before x o none false h k = refl
challenge_before x o (some y) true h k = ground arith
challenge_before x o (some y) false h k = refl

last_hit-enter :
    (p : TargetOverride → Bool) (o : TargetOverride) (xs : List TargetOverride)
    → IsSorted xs
    → last_hit p (enter o xs) ≡ (if p o then some (challenge (last_hit p xs) o) else last_hit p xs)
unfolding last_hit enter
last_hit-enter p o [] _ = refl
last_hit-enter p o (x ∷ xs) (a, h) = elim (Bool-cases (leb_ℤ x.salience o.salience)) [
  | inl e ↦
      rw (e, last_hit-enter p o xs h)
        (challenge_after x o (last_hit p xs) (p x) (p o) (ground arith))
  | inr e ↦
      let least : IsAbove x x = omega arith in
      rw e (
        challenge_before x o (later (last_hit p xs) (if p x then some x else none)) (p o) e
          (later-IsAbove x x (last_hit p xs) (p x) least (last_hit-IsAbove p x xs a)))
]

pub last_hit-ranked :
    (p : TargetOverride → Bool) (os : List TargetOverride) → last_hit p (ranked os) ≡ best p os
unfolding ranked best last_hit
last_hit-ranked p [] = refl
last_hit-ranked p (o ∷ os) =
    rw (last_hit-enter p o (ranked os) (ranked-IsSorted os), last_hit-ranked p os) refl

any-enter :
    (p : TargetOverride → Bool) (o : TargetOverride) (xs : List TargetOverride)
    → any p (enter o xs) ≡ (p o || any p xs)
unfolding any enter
any-enter p o [] = refl
any-enter p o (x ∷ xs) = ground (arith, any-enter p o xs)

pub any-ranked :
    (p : TargetOverride → Bool) (os : List TargetOverride) → any p (ranked os) ≡ any p os
unfolding ranked any
any-ranked p [] = refl
any-ranked p (o ∷ os) = rw (any-enter p o (ranked os), any-ranked p os) refl
