-- ===== src/Types/Theta/RoundTrip.antt =====
-- Nesting a flat dictionary and flattening the result.
use mathlib.Core.Path.{subst}
use shark_platform.Prelude.{
  ℕ, ◌≡◌, ◌≢◌, refl, ◌∙◌, false, some, List, [], ◌∷◌, arith, list_eq, list_eq_iff, ◌==◌, Bool-cases,
  inl, inr,
}
use shark_platform.Prelude.Exec.{ok, attempt-ok, ok-value}
use shark_platform.Types.Names.{Text, dot, DotFree, AllDotFree, split, split-DotFree}
use shark_platform.Types.Theta.{
  Tensor, Node, nothing, tensor, dict, Tree, empty, entry, item, set_item, child, add_to_dict,
  add_all, flat_to_nested_dict, flatten,
}
use shark_platform.Types.Theta.Paths.{item-set_item}
use shark_platform.Types.Theta.Flat.{Flat, flat_to_nested_dict-Nested}
use shark_platform.Types.Theta.Flattening.{Good, GoodNode, Proper, item-flatten}

pub flipped : (j k : Text) → list_eq j k ≡ false → list_eq k j ≡ false
flipped j k e = ground (arith, list_eq_iff j k, list_eq_iff k j)

Good-set_item :
    (k : Text) (v : Node) (t : Tree) → DotFree k → GoodNode v → Good t → Good (set_item k v t)
unfolding Good set_item item
Good-set_item k v empty free good h = (free, (refl, (good, tt)))
Good-set_item k v (entry j w t) free good (f, (fresh, (g, h))) = elim (Bool-cases (list_eq j k)) [
  | inl e ↦ rw e (f, (fresh, (good, h)))
  | inr e ↦
      rw e
        (f, (rw (item-set_item k j v t, flipped j k e) fresh, (g, Good-set_item k v t free good h)))
]

Proper-set_item :
    (k : Text) (v : Node) (t : Tree) → k ≢ [] → Proper [] t → Proper [] (set_item k v t)
unfolding set_item
Proper-set_item [] v t ne h = absurd (ne refl)
Proper-set_item (c ∷ k) v empty ne h = tt
Proper-set_item (c ∷ k) v (entry [] w t) ne h = absurd h
Proper-set_item (c ∷ k) v (entry (d ∷ j) w t) ne h = elim (Bool-cases (list_eq (d ∷ j) (c ∷ k))) [
  | inl e ↦ rw e h
  | inr e ↦ rw e (Proper-set_item (c ∷ k) v t ne h)
]

Good-child : (v : Node) (s : Tree) → child (some v) ≡ ok s → GoodNode v → Good s
unfolding GoodNode
Good-child nothing s e h = absurd (cc)
Good-child (tensor x) s e h = absurd (cc)
Good-child (dict r) s e h = subst Good (ok-value e) h

Good-item : (t : Tree) (k : Text) (s : Tree) → child (item t k) ≡ ok s → Good t → Good s
unfolding Good item
Good-item empty k s e h = subst Good (ok-value e) tt
Good-item (entry j v t) k s e (f, (fresh, (good, h))) = elim (Bool-cases (list_eq j k)) [
  | inl c ↦ Good-child v s (rw c at e) good
  | inr c ↦ Good-item t k s (rw c at e) h
]

Good-add_to_dict :
    (k : Text) (ks : List Text) (x : Tensor) (t t' : Tree)
    → DotFree k × AllDotFree ks
    → add_to_dict k ks (tensor x) t ≡ ok t'
    → Good t
    → Good t'
unfolding add_to_dict GoodNode
Good-add_to_dict k [] x t t' free run h =
    subst Good (ok-value run) (Good-set_item k (tensor x) t free.0 tt h)
Good-add_to_dict k (p ∷ ps) x t t' free run h =
    let (s, c, run1) = attempt-ok _ run in
    let (s', a, run2) = attempt-ok _ run1 in
    subst Good (ok-value run2) (
      Good-set_item k (dict s') t free.0
        (Good-add_to_dict p ps x s s' free.1 a (Good-item t k s c h)) h)

Proper-add_to_dict :
    (k : Text) (ks : List Text) (x : Tensor) (t t' : Tree)
    → k ≢ []
    → add_to_dict k ks (tensor x) t ≡ ok t'
    → Proper [] t
    → Proper [] t'
unfolding add_to_dict
Proper-add_to_dict k [] x t t' ne run h =
    subst (Proper []) (ok-value run) (Proper-set_item k (tensor x) t ne h)
Proper-add_to_dict k (p ∷ ps) x t t' ne run h =
    let (s, c, run1) = attempt-ok _ run in
    let (s', a, run2) = attempt-ok _ run1 in
    subst (Proper []) (ok-value run2) (Proper-set_item k (dict s') t ne h)

-- Every name starts with a character that is no dot.
abbrev pub Start : Text → Type 0
Start [] = ⊥
Start (c ∷ cs) = (c == dot) ≡ false

abbrev pub Started : Tree → Type 0
Started empty = Unit
Started (entry name v flat) = Start name × Started flat

first_part_ne : (c : ℕ) (cs : Text) → (c == dot) ≡ false → (split (c ∷ cs)).0 ≢ []
unfolding split
first_part_ne c cs h e = let there : ◌≡◌ {A = Text} (c ∷ (split cs).0) [] = rw h at e in absurd (cc)

add_all-Good :
    (flat t t' : Tree)
    → Flat flat
    → Started flat
    → add_all flat t ≡ ok t'
    → Good t × Proper [] t
    → Good t' × Proper [] t'
unfolding add_all
add_all-Good empty t t' h started run good = subst (λ r. Good r × Proper [] r) (ok-value run) good
add_all-Good (entry [] v flat) t t' h started run good = absurd started.0
add_all-Good (entry (c ∷ cs) nothing flat) t t' h started run good = absurd h.0
add_all-Good (entry (c ∷ cs) (dict s) flat) t t' h started run good = absurd h.0
add_all-Good (entry (c ∷ cs) (tensor x) flat) t t' h started run good =
    let (s, a, run1) = attempt-ok _ run in
    add_all-Good flat s t' h.1.1 started.1 run1 (
      Good-add_to_dict _ _ x t s (split-DotFree (c ∷ cs)) a good.0,
      Proper-add_to_dict _ _ x t s (first_part_ne c cs started.0) a good.1,
    )

pub nested-Good :
    (flat t : Tree)
    → Flat flat
    → Started flat
    → flat_to_nested_dict flat ≡ ok t
    → Good t × Proper [] t
unfolding flat_to_nested_dict Good
nested-Good flat t h started run = add_all-Good flat empty t h started run (tt, tt)

-- A flat dictionary of tensors, whose names do not start with a dot and do not go on from each other with
-- one, is nested without an exception, and flattening gives each name its tensor back, and nothing else.
pub flatten-flat_to_nested_dict :
    (flat : Tree)
    → Flat flat
    → Started flat
    → (t : Tree) × (flat_to_nested_dict flat ≡ ok t)
      × ((name : Text) → item (flatten t) name ≡ item flat name)
flatten-flat_to_nested_dict flat h started =
    let (t, run, leaves) = flat_to_nested_dict-Nested flat h in
    let (good, proper) = nested-Good flat t h started run in
    (t, run, λ name. item-flatten t name good proper ∙ leaves name)
