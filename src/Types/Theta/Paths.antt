-- ===== src/Types/Theta/Paths.antt =====
-- What a tree has at a path, and dictionary lookups.
use shark_platform.Prelude.{
  ◌≡◌, refl, Bool, true, false, ◌&&◌, Option, none, some, List, [], ◌∷◌, arith, list_eq,
  list_eq_iff, list_eq_refl, if◌then◌else◌,
}
use shark_platform.Types.Names.{Text}
use shark_platform.Types.Theta.{Node, dict, Tree, empty, entry, item, set_item}

-- A value that is no dictionary.
abbrev pub leaf : Option Node → Option Node
leaf none = none
leaf (some (dict s)) = none
leaf (some v) = some v

-- The dictionary of a value, or an empty one.
abbrev pub sub_tree : Option Node → Tree
sub_tree (some (dict s)) = s
sub_tree v = empty

-- The leaf at a path.
unfoldable pub leaf_at : Tree → Text → List Text → Option Node
leaf_at t k [] = leaf (item t k)
leaf_at t k (p ∷ ps) = leaf_at (sub_tree (item t k)) p ps

unfoldable pub path_eq : Text → List Text → Text → List Text → Bool
path_eq k [] j [] = list_eq k j
path_eq k [] j (q ∷ qs) = false
path_eq k (p ∷ ps) j [] = false
path_eq k (p ∷ ps) j (q ∷ qs) = list_eq k j && path_eq p ps q qs

pub item-set_item :
    (k j : Text) (v : Node) (t : Tree)
    → item (set_item k v t) j ≡ (if list_eq k j then some v else item t j)
unfolding item set_item
item-set_item k j v empty = refl
item-set_item k j v (entry i w t) =
    ground (arith, list_eq_iff k j, list_eq_iff i k, list_eq_iff i j, item-set_item k j v t)

pub leaf_at-empty : (k : Text) (ks : List Text) → leaf_at empty k ks ≡ none
unfolding leaf_at item
leaf_at-empty k [] = refl
leaf_at-empty k (p ∷ ps) = leaf_at-empty p ps

pub path_eq_iff :
    (k : Text) (ks : List Text) (j : Text) (js : List Text)
    → path_eq k ks j js ≡ true
    → (k ≡ j) × (ks ≡ js)
unfolding path_eq
path_eq_iff k [] j [] h = ((list_eq_iff k j).0 h, refl)
path_eq_iff k [] j (q ∷ qs) h = absurd (cc)
path_eq_iff k (p ∷ ps) j [] h = absurd (cc)
path_eq_iff k (p ∷ ps) j (q ∷ qs) h =
    let (e, es) = path_eq_iff p ps q qs (ground arith) in
    ((list_eq_iff k j).0 (ground arith), rw (e, es) refl)

pub path_eq_refl : (k : Text) (ks : List Text) → path_eq k ks k ks ≡ true
unfolding path_eq
path_eq_refl k [] = list_eq_refl k
path_eq_refl k (p ∷ ps) = rw (list_eq_refl k) (path_eq_refl p ps)
