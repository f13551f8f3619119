-- ===== src/Types/Theta/Flattening.antt =====
-- What `flatten` has for a name: the leaf at the parts of the name.
use shark_platform.Prelude.{
  ◌≡◌, ◌≢◌, refl, sym, ◌∙◌, true, false, Option, none, some, List, [], ◌∷◌, list_eq, list_eq_refl,
  if◌then◌else◌,
}
use shark_platform.Types.Names.{Text, DotFree, split}
use shark_platform.Types.Theta.{
  Node, nothing, tensor, dict, Tree, empty, entry, item, set_item, new_prefix, accum, flatten,
}
use shark_platform.Types.Theta.Paths.{leaf, sub_tree, leaf_at, item-set_item, leaf_at-empty}
use shark_platform.Types.Theta.Flat.{or_else, or_else-none}
use shark_platform.Types.Theta.Prefixes.{
  after, under, is_text, is_text-under, after-under, same, below, other, cut,
}

-- In every dictionary the keys are distinct and have no dots, and there is no `None`.
unfoldable mutual
  pub Good : Tree → Type 0
  Good empty = Unit
  Good (entry k v t) = DotFree k × ((item t k ≡ none) × (GoodNode v × Good t))

  pub GoodNode : Node → Type 0
  GoodNode nothing = ⊥
  GoodNode (tensor x) = Unit
  GoodNode (dict s) = Good s

-- The leaf of a tree at what follows a prefix, or else another value.
abbrev found : Tree → Option Text → Option Node → Option Node
found t none o = o
found t (some u) o = or_else (leaf_at t (split u).0 (split u).1) o

-- The same for an entry alone.
abbrev inside : Text → Node → Option Text → Option Node → Option Node
inside k (dict s) u o = found s (after k u) o
inside k nothing u o = if is_text k u then some nothing else o
inside k (tensor x) u o = if is_text k u then some (tensor x) else o

leaf_at-other :
    (k : Text) (v : Node) (t : Tree) (j : Text) (js : List Text)
    → list_eq k j ≡ false
    → leaf_at (entry k v t) j js ≡ leaf_at t j js
unfolding leaf_at item
leaf_at-other k v t j [] e = rw e refl
leaf_at-other k v t j (q ∷ qs) e = rw e refl

leaf_at-here :
    (k : Text) (v : Node) (t : Tree) (js : List Text)
    → (q : Text) → leaf_at (entry k v t) k (q ∷ js) ≡ leaf_at (sub_tree (some v)) q js
unfolding leaf_at item
leaf_at-here k v t js q = rw (list_eq_refl k) refl

leaf_at-alone : (k : Text) (v : Node) (t : Tree) → leaf_at (entry k v t) k [] ≡ leaf (some v)
unfolding leaf_at item
leaf_at-alone k v t = rw (list_eq_refl k) refl

leaf_at-missing : (t : Tree) (k : Text) (js : List Text) → item t k ≡ none → leaf_at t k js ≡ none
unfolding leaf_at
leaf_at-missing t k [] h = rw h refl
leaf_at-missing t k (q ∷ js) h = rw h (leaf_at-empty q js)

module _ (k u : Text) (o : Option Node) where
  inside-same :
      (v : Node)
      → list_eq k u ≡ true
      → after k (some u) ≡ none
      → inside k v (some u) o ≡ or_else (leaf (some v)) o
  inside-same nothing e f = rw e refl
  inside-same (tensor x) e f = rw e refl
  inside-same (dict s) e f = rw f refl

  inside-below :
      (v : Node) (w : Text)
      → list_eq k u ≡ false
      → after k (some u) ≡ some w
      → inside k v (some u) o ≡ or_else (leaf_at (sub_tree (some v)) (split w).0 (split w).1) o
  inside-below nothing w e f = rw (e, leaf_at-empty (split w).0 (split w).1) refl
  inside-below (tensor x) w e f = rw (e, leaf_at-empty (split w).0 (split w).1) refl
  inside-below (dict s) w e f = rw f refl

  inside-other :
      (v : Node) → list_eq k u ≡ false → after k (some u) ≡ none → inside k v (some u) o ≡ o
  inside-other nothing e f = rw e refl
  inside-other (tensor x) e f = rw e refl
  inside-other (dict s) e f = rw f refl

  -- An entry before the others: its part is found first.
  found-entry :
      (v : Node) (t : Tree)
      → DotFree k
      → item t k ≡ none
      → found t (some u) (inside k v (some u) o) ≡ found (entry k v t) (some u) o
  found-entry v t h fresh = elim (cut k u h) [
    | same e f g ↦ rw (g, leaf_at-alone k v t, leaf_at-missing t k [] fresh) (inside-same v e f)
    | below w e f g ↦
        rw
          (
            g,
            leaf_at-here k v t (split w).1 (split w).0,
            leaf_at-missing t k ((split w).0 ∷ (split w).1) fresh,
          )
          (inside-below v w e f)
    | other e f g ↦ rw (leaf_at-other k v t (split u).0 (split u).1 g, inside-other v e f) refl
  ]

found-entries :
    (k : Text) (v : Node) (t : Tree) (u : Option Text) (o : Option Node)
    → DotFree k
    → item t k ≡ none
    → found t u (inside k v u o) ≡ found (entry k v t) u o
found-entries k nothing t none o h fresh = refl
found-entries k (tensor x) t none o h fresh = refl
found-entries k (dict s) t none o h fresh = refl
found-entries k v t (some u) o h fresh = found-entry k u o v t h fresh

-- Below a prefix that is not empty, or with keys that are not.
abbrev pub Proper : Text → Tree → Type 0
Proper prefix empty = Unit
Proper (c ∷ prefix) (entry k v t) = Unit
Proper [] (entry [] v t) = ⊥
Proper [] (entry (c ∷ k) v t) = Proper [] t

Proper-rest :
    (prefix k : Text) (v : Node) (t : Tree) → Proper prefix (entry k v t) → Proper prefix t
Proper-rest [] [] v t h = absurd h
Proper-rest [] (c ∷ k) v t h = h
Proper-rest (c ∷ prefix) k v empty h = tt
Proper-rest (c ∷ prefix) k v (entry j w t) h = tt

new_prefix-ne :
    (prefix k : Text) (v : Node) (t : Tree) → Proper prefix (entry k v t) → new_prefix prefix k ≢ []
new_prefix-ne [] [] v t h e = absurd h
new_prefix-ne [] (c ∷ k) v t h e = absurd (cc)
new_prefix-ne (c ∷ prefix) k v t h e = absurd (cc)

Proper-sub : (prefix : Text) (s : Tree) → prefix ≢ [] → Proper prefix s
Proper-sub [] s h = absurd (h refl)
Proper-sub (c ∷ prefix) empty h = tt
Proper-sub (c ∷ prefix) (entry k v s) h = tt

found-empty : (u : Option Text) (o : Option Node) → found empty u o ≡ o
found-empty none o = refl
found-empty (some u) o = rw (leaf_at-empty (split u).0 (split u).1) refl

item-accum :
    (prefix : Text) (t results : Tree) (name : Text)
    → Good t
    → Proper prefix t
    → item (accum prefix t results) name ≡ found t (under prefix name) (item results name)
unfolding accum Good
item-accum prefix empty results name h proper =
    sym (found-empty (under prefix name) (item results name))
item-accum prefix (entry k (dict s) t) results name (free, (fresh, (good, h))) proper =
    let ne = new_prefix-ne prefix k (dict s) t proper in
    rw
      (
        item-accum prefix t (accum (new_prefix prefix k) s results) name h
            (Proper-rest prefix k (dict s) t proper),
        item-accum (new_prefix prefix k) s results name good
            (Proper-sub (new_prefix prefix k) s ne),
        after-under prefix k name ne,
      )
      (found-entries k (dict s) t (under prefix name) (item results name) free fresh)
item-accum prefix (entry k nothing t) results name (free, (fresh, (good, h))) proper = absurd good
item-accum prefix (entry k (tensor x) t) results name (free, (fresh, (good, h))) proper =
    rw
      (
        item-accum prefix t (set_item (new_prefix prefix k) (tensor x) results) name h
            (Proper-rest prefix k (tensor x) t proper),
        item-set_item (new_prefix prefix k) name (tensor x) results,
        is_text-under prefix k name,
      )
      (found-entries k (tensor x) t (under prefix name) (item results name) free fresh)

-- In a tree with distinct keys without dots, none empty at the top, `flatten` has for each name the leaf
-- at the parts of the name.
pub item-flatten :
    (t : Tree) (name : Text)
    → Good t
    → Proper [] t
    → item (flatten t) name ≡ leaf_at t (split name).0 (split name).1
unfolding flatten item
item-flatten t name h proper = item-accum [] t empty name h proper ∙ or_else-none _
