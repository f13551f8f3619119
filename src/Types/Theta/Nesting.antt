-- ===== src/Types/Theta/Nesting.antt =====
-- What `add_to_dict` changes: the leaf at the path of the name, and no other leaf.
use shark_platform.Prelude.{
  ◌≡◌, refl, true, false, Option, none, some, List, [], ◌∷◌, list_eq, list_eq_iff, if◌then◌else◌,
  Bool-cases, inl, inr, ◌⊎◌,
}
use shark_platform.Prelude.Exec.{ok, attempt}
use shark_platform.Types.Names.{Text}
use shark_platform.Types.Theta.{
  Tensor, Node, nothing, tensor, dict, Tree, item, set_item, child, add_to_dict,
}
use shark_platform.Types.Theta.Paths.{leaf, sub_tree, leaf_at, path_eq, item-set_item}

-- A value that is a dictionary or missing.
abbrev pub Inner : Option Node → Type 0
Inner none = Unit
Inner (some (dict s)) = Unit
Inner (some v) = ⊥

-- Nothing stands on a path, or at its end.
unfoldable pub Clear : Tree → Text → List Text → Type 0
Clear t k [] = item t k ≡ none
Clear t k (p ∷ ps) = Inner (item t k) × Clear (sub_tree (item t k)) p ps

-- Neither path goes on from the other.
unfoldable pub Apart : Text → List Text → Text → List Text → Type 0
Apart k [] j js = list_eq k j ≡ false
Apart k (p ∷ ps) j [] = list_eq k j ≡ false
Apart k (p ∷ ps) j (q ∷ qs) = (list_eq k j ≡ false) ⊎ Apart p ps q qs

-- A tree with a tensor added at a path.
pub record Added (t : Tree) (k : Text) (ks : List Text) (x : Tensor) (t' : Tree) : Type 0 where
  pub runs : add_to_dict k ks (tensor x) t ≡ ok t'
  pub leaves :
      (j : Text) (js : List Text)
      → leaf_at t' j js ≡ (if path_eq k ks j js then some (tensor x) else leaf_at t j js)
  pub clear : (j : Text) (js : List Text) → Apart k ks j js → Clear t j js → Clear t' j js

-- The leaf of a value at the rest of a path.
abbrev rest_leaf : Node → List Text → Option Node
rest_leaf v [] = leaf (some v)
rest_leaf v (q ∷ qs) = leaf_at (sub_tree (some v)) q qs

leaf_at-set_item :
    (k : Text) (v : Node) (t : Tree) (j : Text) (js : List Text)
    → leaf_at (set_item k v t) j js ≡ (if list_eq k j then rest_leaf v js else leaf_at t j js)
unfolding leaf_at
leaf_at-set_item k v t j [] =
    rw (item-set_item k j v t)
      (elim (Bool-cases (list_eq k j)) [ inl e ↦ rw e refl | inr e ↦ rw e refl ])
leaf_at-set_item k v t j (q ∷ qs) =
    rw (item-set_item k j v t)
      (elim (Bool-cases (list_eq k j)) [ inl e ↦ rw e refl | inr e ↦ rw e refl ])

Clear-other :
    (k : Text) (v : Node) (t : Tree) (j : Text) (js : List Text)
    → list_eq k j ≡ false
    → Clear t j js
    → Clear (set_item k v t) j js
unfolding Clear
Clear-other k v t j [] e h = rw (item-set_item k j v t, e) h
Clear-other k v t j (q ∷ qs) e h = rw (item-set_item k j v t, e) h

Clear-below :
    (k : Text) (s t : Tree) (j q : Text) (qs : List Text)
    → list_eq k j ≡ true
    → Clear s q qs
    → Clear (set_item k (dict s) t) j (q ∷ qs)
unfolding Clear
Clear-below k s t j q qs e h = rw (item-set_item k j (dict s) t, e) (tt, h)

Clear-tail :
    (k : Text) (t : Tree) (j q : Text) (qs : List Text)
    → list_eq k j ≡ true
    → Clear t j (q ∷ qs)
    → Clear (sub_tree (item t k)) q qs
unfolding Clear
Clear-tail k t j q qs e h = rw ((list_eq_iff k j).0 e) h.1

Clear-leaf : (t : Tree) (k : Text) (ks : List Text) → Clear t k ks → leaf_at t k ks ≡ none
unfolding Clear leaf_at
Clear-leaf t k [] h = rw h refl
Clear-leaf t k (p ∷ ps) h = Clear-leaf (sub_tree (item t k)) p ps h.1

Inner-leaf : (o : Option Node) → Inner o → leaf o ≡ none
Inner-leaf none h = refl
Inner-leaf (some (dict s)) h = refl
Inner-leaf (some nothing) h = absurd h
Inner-leaf (some (tensor x)) h = absurd h

Inner-child : (o : Option Node) → Inner o → child o ≡ ok (sub_tree o)
Inner-child none h = refl
Inner-child (some (dict s)) h = refl
Inner-child (some nothing) h = absurd h
Inner-child (some (tensor x)) h = absurd h

module _ (t : Tree) (k : Text) (x : Tensor) where
  Added-last : item t k ≡ none → Added t k [] x (set_item k (tensor x) t)
  unfolding add_to_dict leaf_at path_eq Apart
  Added-last h = record {
    runs = refl;
    leaves = added;
    clear = λ j js apart c. Clear-other k (tensor x) t j js (other j js apart) c;
  }
    where
      other : (j : Text) (js : List Text) → Apart k [] j js → list_eq k j ≡ false
      other j [] apart = apart
      other j (q ∷ qs) apart = apart

      added :
          (j : Text) (js : List Text)
          → leaf_at (set_item k (tensor x) t) j js
            ≡ (if path_eq k [] j js then some (tensor x) else leaf_at t j js)
      added j [] = leaf_at-set_item k (tensor x) t j []
      added j (q ∷ qs) = rw (item-set_item k j (tensor x) t) (elim (Bool-cases (list_eq k j)) [
        | inl e ↦
            let missing : item t j ≡ none = rw (← (list_eq_iff k j).0 e) h in rw (e, missing) refl
        | inr e ↦ rw e refl
      ])

module _ (t : Tree) (k p : Text) (ps : List Text) (x : Tensor) (s : Tree) where
  Added-Inner :
      Inner (item t k)
      → Added (sub_tree (item t k)) p ps x s
      → Added t k (p ∷ ps) x (set_item k (dict s) t)
  unfolding add_to_dict leaf_at path_eq Apart attempt
  Added-Inner h a = record {
    runs = rw (Inner-child (item t k) h, a.runs) refl;
    leaves = added;
    clear = cleared;
  }
    where
      added :
          (j : Text) (js : List Text)
          → leaf_at (set_item k (dict s) t) j js
            ≡ (if path_eq k (p ∷ ps) j js then some (tensor x) else leaf_at t j js)
      added j [] = rw (item-set_item k j (dict s) t) (elim (Bool-cases (list_eq k j)) [
        | inl e ↦
            let bare : leaf (item t j) ≡ none =
              rw (← (list_eq_iff k j).0 e) (Inner-leaf (item t k) h) in
            rw (e, bare) refl
        | inr e ↦ rw e refl
      ])
      added j (q ∷ qs) = rw (item-set_item k j (dict s) t) (elim (Bool-cases (list_eq k j)) [
        | inl e ↦
            let same : item t j ≡ item t k = rw ((list_eq_iff k j).0 e) refl in
            rw (e, same) (a.leaves q qs)
        | inr e ↦ rw e refl
      ])

      cleared :
          (j : Text) (js : List Text)
          → Apart k (p ∷ ps) j js
          → Clear t j js
          → Clear (set_item k (dict s) t) j js
      cleared j [] apart c = Clear-other k (dict s) t j [] apart c
      cleared j (q ∷ qs) apart c = elim (Bool-cases (list_eq k j)) [
        | inl e ↦ elim apart [
          | inl differ ↦ absurd (cc)
          | inr below ↦ Clear-below k s t j q qs e (a.clear q qs below (Clear-tail k t j q qs e c))
        ]
        | inr e ↦ Clear-other k (dict s) t j (q ∷ qs) e c
      ]

pub add_to_dict-Added :
    (t : Tree) (k : Text) (ks : List Text) (x : Tensor)
    → Clear t k ks
    → (t' : Tree) × Added t k ks x t'
unfolding Clear
add_to_dict-Added t k [] x h = (set_item k (tensor x) t, Added-last t k x h)
add_to_dict-Added t k (p ∷ ps) x (inner, h) =
    let (s, a) = add_to_dict-Added (sub_tree (item t k)) p ps x h in
    (set_item k (dict s) t, Added-Inner t k p ps x s inner a)
