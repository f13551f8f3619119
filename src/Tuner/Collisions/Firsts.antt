-- ===== src/Tuner/Collisions/Firsts.antt =====
-- Which candidates are kept: the first one with each hash.
use shark_platform.Prelude.{
  ℕ, ◌≡◌, refl, sym, ap, ◌∙◌, Bool, true, false, ◌||◌, arith, Option, none, some, List, [], ◌∷◌,
  ◌++◌, map, length, ltb, if◌then◌else◌, list_eq, Bool-cases, Option-cases, inl, inr,
}
use shark_platform.Prelude.Dict.{get, put, get-put}
use shark_platform.Tuner.Collisions.{
  Hash, count, hash_count, any_collided, find_collisions, first, unique_indexes, collision_handler,
  unique_candidates,
}

unfoldable pub is_seen : Hash → List Hash → Bool
is_seen h [] = false
is_seen h (j ∷ js) = list_eq j h || is_seen h js

-- The candidates whose hash has not been seen before, in their order.
unfoldable pub firsts : List Hash → List (ℕ × Hash) → List ℕ
firsts seen [] = []
firsts seen ((i, h) ∷ rest) =
    let later = firsts (h ∷ seen) rest in if is_seen h seen then later else i ∷ later

-- Whether a hash comes again.
unfoldable repeats : List Hash → List (ℕ × Hash) → Bool
repeats seen [] = false
repeats seen ((i, h) ∷ rest) = is_seen h seen || repeats (h ∷ seen) rest

abbrev is_some {ℓ} : {A : Type ℓ} → Option A → Bool
is_some none = false
is_some (some a) = true

-- The hashes that are counted are those that have been seen.
abbrev Counts : List Hash → List (Hash × List ℕ) → Type 0
Counts seen counts = (h : Hash) → is_seen h seen ≡ is_some (get h counts)

abbrev Full : List (Hash × List ℕ) → Type 0
Full [] = Unit
Full ((h, []) ∷ rest) = ⊥
Full ((h, i ∷ is) ∷ rest) = Full rest

two_long : (k : ℕ) (ks : List ℕ) (i : ℕ) → ltb 1 (length (k ∷ ks ++ i ∷ [])) ≡ true
two_long k [] i = refl
two_long k (l ∷ ks) i = ground arith

or_true : (b : Bool) → (b || true) ≡ true
or_true true = refl
or_true false = refl

end-Full :
    (j : Hash) (is : List ℕ) (i : ℕ) (rest : List (Hash × List ℕ))
    → Full rest
    → Full ((j, is ++ i ∷ []) ∷ rest)
end-Full j [] i rest f = f
end-Full j (k ∷ ks) i rest f = f

module _ (h : Hash) (i : ℕ) where
  -- A hash that is counted already: the first index stays, and there is a collision.
  unique-again :
      (counts : List (Hash × List ℕ)) (is : List ℕ)
      → Full counts
      → get h counts ≡ some is
      → unique_indexes (put h (is ++ i ∷ []) counts) ≡ unique_indexes counts
  unfolding get put
  unique-again [] is f e = absurd (cc)
  unique-again ((j, []) ∷ rest) is f e = absurd f
  unique-again ((j, k ∷ ks) ∷ rest) is f e = elim (Bool-cases (list_eq j h)) [
    | inl same ↦
        let found : some (k ∷ ks) ≡ some is = rw same at e in
        let same_list : k ∷ ks ≡ is = cc in rw (same, ← same_list) refl
    | inr other ↦ rw other (ap (◌∷◌ k) (unique-again rest is f (rw other at e)))
  ]

  collided-again :
      (counts : List (Hash × List ℕ)) (is : List ℕ)
      → Full counts
      → get h counts ≡ some is
      → any_collided (put h (is ++ i ∷ []) counts) ≡ true
  unfolding get put any_collided
  collided-again [] is f e = absurd (cc)
  collided-again ((j, []) ∷ rest) is f e = absurd f
  collided-again ((j, k ∷ ks) ∷ rest) is f e = elim (Bool-cases (list_eq j h)) [
    | inl same ↦
        let found : some (k ∷ ks) ≡ some is = rw same at e in
        let same_list : k ∷ ks ≡ is = cc in rw (same, ← same_list, two_long k ks i) refl
    | inr other ↦
        rw (other, collided-again rest is f (rw other at e)) (or_true (ltb 1 (length (k ∷ ks))))
  ]

  Full-again :
      (counts : List (Hash × List ℕ)) (is : List ℕ)
      → Full counts
      → Full (put h (is ++ i ∷ []) counts)
  unfolding put
  Full-again [] [] f = tt
  Full-again [] (k ∷ ks) f = tt
  Full-again ((j, []) ∷ rest) is f = absurd f
  Full-again ((j, k ∷ ks) ∷ rest) is f = elim (Bool-cases (list_eq j h)) [
    | inl same ↦ rw same (end-Full j is i rest f)
    | inr other ↦ rw other (Full-again rest is f)
  ]

  -- A new hash comes at the end.
  unique-new :
      (counts : List (Hash × List ℕ))
      → get h counts ≡ none
      → unique_indexes (put h (i ∷ []) counts) ≡ unique_indexes counts ++ i ∷ []
  unfolding get put
  unique-new [] e = refl
  unique-new ((j, is) ∷ rest) e = elim (Bool-cases (list_eq j h)) [
    | inl same ↦ let there : some is ≡ none = rw same at e in absurd (cc)
    | inr other ↦ rw other (ap (◌∷◌ (first is)) (unique-new rest (rw other at e)))
  ]

  collided-new :
      (counts : List (Hash × List ℕ))
      → get h counts ≡ none
      → any_collided (put h (i ∷ []) counts) ≡ any_collided counts
  unfolding get put any_collided
  collided-new [] e = refl
  collided-new ((j, is) ∷ rest) e = elim (Bool-cases (list_eq j h)) [
    | inl same ↦ let there : some is ≡ none = rw same at e in absurd (cc)
    | inr other ↦ rw (other, collided-new rest (rw other at e)) refl
  ]

Counts-put :
    (h : Hash) (is : List ℕ) (seen : List Hash) (counts : List (Hash × List ℕ))
    → Counts seen counts
    → Counts (h ∷ seen) (put h is counts)
unfolding is_seen
Counts-put h is seen counts c j =
    rw (get-put h j is counts, c j)
      (elim (Bool-cases (list_eq h j)) [ inl e ↦ rw e refl | inr e ↦ rw e refl ])

-- What counting gives for the candidates that are left.
record Counted (seen : List Hash) (l : List (ℕ × Hash)) (counts : List (Hash × List ℕ))
    : Type 0 where
  unique : unique_indexes (hash_count l counts) ≡ unique_indexes counts ++ firsts seen l
  collided : any_collided (hash_count l counts) ≡ (any_collided counts || repeats seen l)

append_nil : (xs : List ℕ) → xs ++ [] ≡ xs
append_nil [] = refl
append_nil (x ∷ xs) = ap (◌∷◌ x) (append_nil xs)

or_false : (b : Bool) → (b || false) ≡ b
or_false true = refl
or_false false = refl

append_one : (xs : List ℕ) (i : ℕ) (ys : List ℕ) → (xs ++ i ∷ []) ++ ys ≡ xs ++ i ∷ ys
append_one [] i ys = refl
append_one (x ∷ xs) i ys = ap (◌∷◌ x) (append_one xs i ys)

module _ (i : ℕ) (h : Hash) (l : List (ℕ × Hash)) (seen : List Hash)
    (counts : List (Hash × List ℕ)) where
  Counted-new :
      get h counts ≡ none
      → is_seen h seen ≡ false
      → Counted (h ∷ seen) l (put h (i ∷ []) counts)
      → Counted seen ((i, h) ∷ l) counts
  unfolding hash_count firsts repeats
  Counted-new e new r =
      let step : hash_count ((i, h) ∷ l) counts ≡ hash_count l (put h (i ∷ []) counts) =
        ap (hash_count l) (counted_new e) in
      record {
        unique = rw new (
            ap unique_indexes step
            ∙ r.unique
            ∙ ap (λ xs. xs ++ firsts (h ∷ seen) l) (unique-new h i counts e)
            ∙ append_one (unique_indexes counts) i (firsts (h ∷ seen) l));
        collided = rw new (
            ap any_collided step
            ∙ r.collided
            ∙ ap (λ b. b || repeats (h ∷ seen) l) (collided-new h i counts e));
      }
    where
      counted_new : get h counts ≡ none → count i h counts ≡ put h (i ∷ []) counts
      counted_new e = rw (e, count) refl

  Counted-again :
      (is : List ℕ)
      → Full counts
      → get h counts ≡ some is
      → is_seen h seen ≡ true
      → Counted (h ∷ seen) l (put h (is ++ i ∷ []) counts)
      → Counted seen ((i, h) ∷ l) counts
  unfolding hash_count firsts repeats
  Counted-again is f e old r =
      let step : hash_count ((i, h) ∷ l) counts ≡ hash_count l (put h (is ++ i ∷ []) counts) =
        ap (hash_count l) (counted_again e) in
      record {
        unique = rw old (
            ap unique_indexes step
            ∙ r.unique
            ∙ ap (λ xs. xs ++ firsts (h ∷ seen) l) (unique-again h i counts is f e));
        collided = rw old (
            ap any_collided step
            ∙ r.collided
            ∙ ap (λ b. b || repeats (h ∷ seen) l) (collided-again h i counts is f e)
            ∙ sym (or_true (any_collided counts)));
      }
    where
      counted_again : get h counts ≡ some is → count i h counts ≡ put h (is ++ i ∷ []) counts
      counted_again e = rw (e, count) refl

hash_count-Counted :
    (l : List (ℕ × Hash)) (seen : List Hash) (counts : List (Hash × List ℕ))
    → Counts seen counts
    → Full counts
    → Counted seen l counts
unfolding hash_count firsts repeats
hash_count-Counted [] seen counts c f = record {
  unique = sym (append_nil (unique_indexes counts));
  collided = sym (or_false (any_collided counts));
}
hash_count-Counted ((i, h) ∷ l) seen counts c f = elim (Option-cases (get h counts)) [
  | inl e ↦ Counted-new i h l seen counts e (rw (c h, e) refl) (
      hash_count-Counted l (h ∷ seen) (put h (i ∷ []) counts) (Counts-put h (i ∷ []) seen counts c)
        (Full-again h i counts [] f))
  | inr (is, e) ↦ Counted-again i h l seen counts is f e (rw (c h, e) refl) (
      hash_count-Counted l (h ∷ seen) (put h (is ++ i ∷ []) counts)
        (Counts-put h (is ++ i ∷ []) seen counts c) (Full-again h i counts is f))
]

firsts-distinct :
    (seen : List Hash) (l : List (ℕ × Hash))
    → repeats seen l ≡ false
    → firsts seen l ≡ map (λ c. c.0) l
unfolding firsts repeats
firsts-distinct seen [] e = refl
firsts-distinct seen ((i, h) ∷ l) e =
    let new : is_seen h seen ≡ false = ground arith in
    let rest : repeats (h ∷ seen) l ≡ false = ground arith in
    rw new (ap (◌∷◌ i) (firsts-distinct (h ∷ seen) l rest))

all-Counted : (l : List (ℕ × Hash)) → Counted [] l []
unfolding is_seen get
all-Counted l = hash_count-Counted l [] [] (λ h. refl) tt

all_collided : (l : List (ℕ × Hash)) → any_collided (hash_count l []) ≡ repeats [] l
unfolding any_collided
all_collided l = (all-Counted l).collided

-- `compile` keeps, in order, the candidates whose hash no earlier candidate has.
pub unique_candidates-firsts : (l : List (ℕ × Hash)) → unique_candidates l ≡ firsts [] l
unfolding unique_candidates collision_handler find_collisions
unique_candidates-firsts l =
    let r = all-Counted l in
    elim (Bool-cases (repeats [] l)) [
      | inl e ↦
          let some_collided : any_collided (hash_count l []) ≡ true = all_collided l ∙ e in
          rw some_collided r.unique
      | inr e ↦
          let none_collided : any_collided (hash_count l []) ≡ false = all_collided l ∙ e in
          rw none_collided (sym (firsts-distinct [] l e))
    ]
