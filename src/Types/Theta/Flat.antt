-- ===== src/Types/Theta/Flat.antt =====
-- What `flat_to_nested_dict` makes of a flat dictionary of tensors.
use shark_platform.Prelude.{
  ◌≡◌, refl, sym, ◌∙◌, true, false, Option, none, some, List, [], ◌∷◌, list_eq, list_eq_iff,
  list_eq_refl, Bool-cases, inl, inr,
}
use shark_platform.Prelude.Exec.{ok, attempt}
use shark_platform.Types.Names.{Text, split, join, join-split}
use shark_platform.Types.Theta.{
  Tensor, Node, nothing, tensor, dict, Tree, empty, entry, item, add_all, flat_to_nested_dict,
}
use shark_platform.Types.Theta.Paths.{leaf_at, path_eq, leaf_at-empty, path_eq_iff, path_eq_refl}
use shark_platform.Types.Theta.Nesting.{Clear, Apart, Added, add_to_dict-Added}

-- A tensor for each entry, each under a name apart from the others.
abbrev pub AllApart : Text → Tree → Type 0
AllApart name empty = Unit
AllApart name (entry n v flat) =
    Apart (split name).0 (split name).1 (split n).0 (split n).1 × AllApart name flat

abbrev pub IsTensor : Node → Type 0
IsTensor (tensor x) = Unit
IsTensor v = ⊥

-- A flat dictionary of tensors: no name is another one, or goes on from another one with a dot.
abbrev pub Flat : Tree → Type 0
Flat empty = Unit
Flat (entry name v flat) = IsTensor v × (AllApart name flat × Flat flat)

abbrev AllClear : Tree → Tree → Type 0
AllClear t empty = Unit
AllClear t (entry n v flat) = Clear t (split n).0 (split n).1 × AllClear t flat

-- What a dictionary has for a name, or else what another source has.
abbrev pub or_else : Option Node → Option Node → Option Node
or_else (some v) o = some v
or_else none o = o

-- The leaves of a tree that a flat dictionary was nested into.
abbrev pub Nested : Tree → Tree → Tree → Type 0
Nested flat t t' =
    (name : Text)
    → leaf_at t' (split name).0 (split name).1
      ≡ or_else (item flat name) (leaf_at t (split name).0 (split name).1)

AllClear-Added :
    (t : Tree) (name : Text) (x : Tensor) (t' : Tree) (flat : Tree)
    → Added t (split name).0 (split name).1 x t'
    → AllApart name flat
    → AllClear t flat
    → AllClear t' flat
AllClear-Added t name x t' empty a apart h = tt
AllClear-Added t name x t' (entry n v flat) a apart h =
    (a.clear (split n).0 (split n).1 apart.0 h.0, AllClear-Added t name x t' flat a apart.1 h.1)

Apart-irreflexive : (k : Text) (ks : List Text) → Apart k ks k ks → ⊥
unfolding Apart
Apart-irreflexive k [] h = absurd (cc (h, list_eq_refl k))
Apart-irreflexive k (p ∷ ps) (inl h) = absurd (cc (h, list_eq_refl k))
Apart-irreflexive k (p ∷ ps) (inr h) = Apart-irreflexive p ps h

item-AllApart : (name : Text) (flat : Tree) → AllApart name flat → item flat name ≡ none
unfolding item
item-AllApart name empty h = refl
item-AllApart name (entry n v flat) h = elim (Bool-cases (list_eq n name)) [
  | inl e ↦
      let same : n ≡ name = (list_eq_iff n name).0 e in
      absurd (Apart-irreflexive _ _ (rw same at h.0))
  | inr e ↦ rw e (item-AllApart name flat h.1)
]

pub split_ne :
    (n m : Text)
    → list_eq n m ≡ false
    → path_eq (split n).0 (split n).1 (split m).0 (split m).1 ≡ false
split_ne n m h = elim (Bool-cases (path_eq (split n).0 (split n).1 (split m).0 (split m).1)) [
  | inr e ↦ e
  | inl e ↦
      let (same, sames) = path_eq_iff _ _ _ _ e in
      let joined : join (split n).0 (split n).1 ≡ join (split m).0 (split m).1 =
        rw (same, sames) refl in
      let equal : n ≡ m = sym (join-split n) ∙ joined ∙ join-split m in
      absurd (cc (h, (list_eq_iff n m).1 equal))
]

Nested-entry :
    (t : Tree) (name : Text) (x : Tensor) (flat t' t'' : Tree)
    → AllApart name flat
    → Added t (split name).0 (split name).1 x t'
    → Nested flat t' t''
    → Nested (entry name (tensor x) flat) t t''
unfolding item
Nested-entry t name x flat t' t'' apart a n m = elim (Bool-cases (list_eq name m)) [
  | inl e ↦
      let same : name ≡ m = (list_eq_iff name m).0 e in
      let missing : item flat m ≡ none = rw (← same) (item-AllApart name flat apart) in
      let here : path_eq (split name).0 (split name).1 (split m).0 (split m).1 ≡ true =
        rw (← same) (path_eq_refl (split name).0 (split name).1) in
      rw (n m, a.leaves (split m).0 (split m).1, here, e, missing) refl
  | inr e ↦ rw (n m, a.leaves (split m).0 (split m).1, split_ne name m e, e) refl
]

add_all-Nested :
    (flat t : Tree)
    → Flat flat
    → AllClear t flat
    → (t' : Tree) × (add_all flat t ≡ ok t') × Nested flat t t'
unfolding add_all attempt item
add_all-Nested empty t h c = (t, refl, λ name. refl)
add_all-Nested (entry name nothing flat) t h c = absurd h.0
add_all-Nested (entry name (dict s) flat) t h c = absurd h.0
add_all-Nested (entry name (tensor x) flat) t (one, (apart, h)) c =
    let (t', a) = add_to_dict-Added t (split name).0 (split name).1 x c.0 in
    let (t'', run, n) = add_all-Nested flat t' h (AllClear-Added t name x t' flat a apart c.1) in
    (t'', rw (a.runs, run) refl, Nested-entry t name x flat t' t'' apart a n)

Clear-empty : (k : Text) (ks : List Text) → Clear empty k ks
unfolding Clear item
Clear-empty k [] = refl
Clear-empty k (p ∷ ps) = (tt, Clear-empty p ps)

AllClear-empty : (flat : Tree) → AllClear empty flat
AllClear-empty empty = tt
AllClear-empty (entry n v flat) = (Clear-empty (split n).0 (split n).1, AllClear-empty flat)

pub or_else-none : (o : Option Node) → or_else o none ≡ o
or_else-none none = refl
or_else-none (some v) = refl

-- A flat dictionary of tensors, in which no name goes on from another with a dot, is nested without an
-- exception, and the nested dictionary has at the parts of each name the tensor of the name, and no
-- other leaf.
pub flat_to_nested_dict-Nested :
    (flat : Tree)
    → Flat flat
    → (t : Tree) × (flat_to_nested_dict flat ≡ ok t)
      × ((name : Text) → leaf_at t (split name).0 (split name).1 ≡ item flat name)
unfolding flat_to_nested_dict
flat_to_nested_dict-Nested flat h =
    let (t, run, n) = add_all-Nested flat empty h (AllClear-empty flat) in
    (
      t,
      run,
      λ name.
          rw (n name, leaf_at-empty (split name).0 (split name).1) (or_else-none (item flat name)),
    )
