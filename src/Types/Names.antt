-- ===== src/Types/Names.antt =====
-- Names of parameters, as lists of characters, and what Python's `split` and `join` make of them.
use shark_platform.Prelude.{
  ℕ, ◌≡◌, refl, sym, ap, ==_iff, ◌∙◌, false, List, [], ◌∷◌, ◌++◌, ◌==◌, if◌then◌else◌, Bool-cases,
  inl, inr,
}

abbrev pub Text : Type 0
Text = List ℕ

-- The character `.`.
abbrev pub dot : ℕ
dot = 46

abbrev pub push : ℕ → Text × List Text → Text × List Text
push c (k, ks) = if c == dot then ([], k ∷ ks) else (c ∷ k, ks)

-- name.split("."), which has a first part
unfoldable pub split : Text → Text × List Text
split [] = ([], [])
split (c ∷ cs) = push c (split cs)

-- ".".join(...) of a first part and others
unfoldable pub join : Text → List Text → Text
join k [] = k
join k (p ∷ ps) = k ++ dot ∷ join p ps

unfoldable pub parts : Text → List Text
unfolding split
parts name = let (k, ks) = split name in k ∷ ks

-- `_norm_name_path`, whose parts are texts already
unfoldable pub norm_name_path : List Text → List Text
unfolding parts
norm_name_path [] = []
norm_name_path (p ∷ ps) = parts p ++ norm_name_path ps

-- No character of a text is the separator.
abbrev pub DotFree : Text → Type 0
DotFree [] = Unit
DotFree (c ∷ cs) = (c == dot) ≡ false × DotFree cs

abbrev pub AllDotFree : List Text → Type 0
AllDotFree [] = Unit
AllDotFree (p ∷ ps) = DotFree p × AllDotFree ps

join-push : (c : ℕ) (p : Text × List Text) → join (push c p).0 (push c p).1 ≡ c ∷ join p.0 p.1
unfolding join
join-push c (k, ks) = elim (Bool-cases (c == dot)) [
  | inl e ↦ rw e (ap (λ x. x ∷ join k ks) (sym ((==_iff c dot).0 e)))
  | inr e ↦ rw e (cons_join c k ks)
]
  where
    cons_join : (c : ℕ) (k : Text) (ks : List Text) → join (c ∷ k) ks ≡ c ∷ join k ks
    cons_join c k [] = refl
    cons_join c k (p ∷ ps) = refl

-- Splitting a name and joining its parts gives the name back.
pub join-split : (name : Text) → join (split name).0 (split name).1 ≡ name
unfolding join split
join-split [] = refl
join-split (c ∷ cs) = join-push c (split cs) ∙ ap (◌∷◌ c) (join-split cs)

DotFree-push :
    (c : ℕ) (p : Text × List Text)
    → DotFree p.0 × AllDotFree p.1
    → DotFree (push c p).0 × AllDotFree (push c p).1
DotFree-push c (k, ks) h = elim (Bool-cases (c == dot)) [
  | inl e ↦ rw e (tt, h)
  | inr e ↦ rw e ((e, h.0), h.1)
]

-- No part of a name has a separator.
pub split-DotFree : (name : Text) → DotFree (split name).0 × AllDotFree (split name).1
unfolding split
split-DotFree [] = (tt, tt)
split-DotFree (c ∷ cs) = DotFree-push c (split cs) (split-DotFree cs)

-- A text without separators, alone or before one.
pub split-whole : (k : Text) → DotFree k → split k ≡ (k, [])
unfolding split
split-whole [] h = refl
split-whole (c ∷ k) h = rw (h.0, split-whole k h.1) refl

pub split-first :
    (k rest : Text) → DotFree k → split (k ++ dot ∷ rest) ≡ (k, (split rest).0 ∷ (split rest).1)
unfolding split
split-first [] rest h = refl
split-first (c ∷ k) rest h = rw (h.0, split-first k rest h.1) refl
