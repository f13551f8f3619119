-- ===== src/Types/Theta/Leaves.antt =====
-- Dictionaries whose entries are the leaves of a tree: their names are apart.
use shark_platform.Prelude.{
  ◌≡◌, refl, false, Option, none, some, List, [], ◌∷◌, arith, list_eq, list_eq_iff, list_eq_refl,
  Bool-cases, inl, inr,
}
use shark_platform.Types.Names.{Text, split}
use shark_platform.Types.Theta.{Node, nothing, tensor, dict, Tree, empty, entry, item}
use shark_platform.Types.Theta.Paths.{leaf, sub_tree, leaf_at, path_eq, leaf_at-empty}
use shark_platform.Types.Theta.Nesting.{Apart}
use shark_platform.Types.Theta.Flat.{IsTensor, AllApart, Flat, split_ne}
use shark_platform.Types.Theta.RoundTrip.{Start, Started, flipped}

leaf_above :
    (o : Option Node) (q : Text) (qs : List Text) (v w : Node)
    → leaf o ≡ some v
    → leaf_at (sub_tree o) q qs ≡ some w
    → ⊥
leaf_above none q qs v w h g = absurd (cc)
leaf_above (some nothing) q qs v w h g = absurd (cc (g, leaf_at-empty q qs))
leaf_above (some (tensor x)) q qs v w h g = absurd (cc (g, leaf_at-empty q qs))
leaf_above (some (dict s)) q qs v w h g = absurd (cc)

-- Two leaves of a tree stand apart.
leaves-Apart :
    (t : Tree) (k : Text) (ks : List Text) (j : Text) (js : List Text) (v w : Node)
    → leaf_at t k ks ≡ some v
    → leaf_at t j js ≡ some w
    → path_eq k ks j js ≡ false
    → Apart k ks j js
unfolding leaf_at path_eq Apart
leaves-Apart t k [] j [] v w h g e = e
leaves-Apart t k [] j (q ∷ qs) v w h g e = elim (Bool-cases (list_eq k j)) [
  | inr f ↦ f
  | inl f ↦ absurd (leaf_above (item t k) q qs v w h (rw ((list_eq_iff k j).0 f) g))
]
leaves-Apart t k (p ∷ ps) j [] v w h g e = elim (Bool-cases (list_eq k j)) [
  | inr f ↦ f
  | inl f ↦ absurd (leaf_above (item t k) p ps w v (rw ((list_eq_iff k j).0 f) g) h)
]
leaves-Apart t k (p ∷ ps) j (q ∷ qs) v w h g e = elim (Bool-cases (list_eq k j)) [
  | inr f ↦ inl f
  | inl f ↦ inr (
      leaves-Apart (sub_tree (item t k)) p ps q qs v w h (rw ((list_eq_iff k j).0 f) g)
        (ground arith))
]

-- The keys of a dictionary are distinct.
abbrev pub Distinct : Tree → Type 0
Distinct empty = Unit
Distinct (entry k v t) = (item t k ≡ none) × Distinct t

-- An entry of a flat dictionary, at the parts of whose name a tree has a leaf.
pub record Leaf (t : Tree) (name : Text) (v : Node) : Type 0 where
  pub is_tensor : IsTensor v
  pub start : Start name
  pub value : Node
  pub at : leaf_at t (split name).0 (split name).1 ≡ some value

abbrev pub Leaves : Tree → Tree → Type 0
Leaves t flat = (name : Text) (v : Node) → item flat name ≡ some v → Leaf t name v

pub item-ne :
    (flat : Tree) (n m : Text) (w : Node)
    → item flat n ≡ none
    → item flat m ≡ some w
    → list_eq n m ≡ false
item-ne flat n m w h g = elim (Bool-cases (list_eq n m)) [
  | inr e ↦ e
  | inl e ↦ let there : item flat n ≡ some w = rw ((list_eq_iff n m).0 e) g in absurd (cc)
]

pub item-entry : (n : Text) (v : Node) (flat : Tree) → item (entry n v flat) n ≡ some v
unfolding item
item-entry n v flat = rw (list_eq_refl n) refl

Leaves-rest :
    (t : Tree) (n : Text) (v : Node) (flat : Tree)
    → item flat n ≡ none
    → Leaves t (entry n v flat)
    → Leaves t flat
unfolding item
Leaves-rest t n v flat fresh h m w e = h m w (rw (item-ne flat n m w fresh e) e)

Leaves-AllApart :
    (t : Tree) (n : Text) (v : Node) (flat : Tree)
    → leaf_at t (split n).0 (split n).1 ≡ some v
    → item flat n ≡ none
    → Distinct flat
    → Leaves t flat
    → AllApart n flat
unfolding item
Leaves-AllApart t n v empty at fresh distinct h = tt
Leaves-AllApart t n v (entry m w flat) at fresh distinct h =
    let differ : list_eq n m ≡ false = item-ne (entry m w flat) n m w fresh (item-entry m w flat) in
    let missing : item flat n ≡ none = rw (flipped n m differ) at fresh in
    (
      leaves-Apart t _ _ _ _ v (h m w (item-entry m w flat)).value at
          (h m w (item-entry m w flat)).at (split_ne n m differ),
      Leaves-AllApart t n v flat at missing distinct.1 (Leaves-rest t m w flat distinct.0 h),
    )

pub Leaves-Flat : (t flat : Tree) → Distinct flat → Leaves t flat → Flat flat × Started flat
Leaves-Flat t empty distinct h = (tt, tt)
Leaves-Flat t (entry n v flat) distinct h =
    let here = h n v (item-entry n v flat) in
    let rest = Leaves-rest t n v flat distinct.0 h in
    let (flats, starts) = Leaves-Flat t flat distinct.1 rest in
    (
      (
        here.is_tensor,
        (Leaves-AllApart t n here.value flat here.at distinct.0 distinct.1 rest, flats),
      ),
      (here.start, starts),
    )
