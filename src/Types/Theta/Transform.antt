-- ===== src/Types/Theta/Transform.antt =====
-- What `transform` does with a function that keeps the names of tensors, as a move to a device does.
use mathlib.Core.Path.{subst}
use shark_platform.Prelude.{
  ◌≡◌, refl, sym, ap, ◌∙◌, Option, none, some, List, [], ◌∷◌, list_eq, list_eq_iff, Bool-cases, inl,
  inr,
}
use shark_platform.Prelude.Exec.{ok, attempt}
use shark_platform.Types.Names.{Text, split}
use shark_platform.Types.Theta.{
  Tensor, Node, nothing, tensor, dict, Tree, empty, entry, item, set_item, flatten,
  flat_to_nested_dict, leaf_values, by_name, apply_all, transform,
}
use shark_platform.Types.Theta.Paths.{leaf_at, item-set_item}
use shark_platform.Types.Theta.Flat.{
  IsTensor, Flat, or_else, or_else-none, flat_to_nested_dict-Nested,
}
use shark_platform.Types.Theta.RoundTrip.{Started}
use shark_platform.Types.Theta.Leaves.{Distinct, Leaves, Leaves-Flat, item-entry, item-ne}
use shark_platform.Types.Theta.Selection.{Distinct-set_item, Distinct-accum}
use shark_platform.Types.Theta.Pop.{item-Flat, flat_leaves}

-- A tensor that has a name.
abbrev pub IsNamed : Text → Node → Type 0
IsNamed name (tensor x) = x.name ≡ name
IsNamed name v = ⊥

-- Each tensor of a dictionary has its key for its name.
abbrev pub Named : Tree → Type 0
Named empty = Unit
Named (entry k v flat) = IsNamed k v × Named flat

module _ (g : Tensor → Tensor) where
  abbrev pub mapped : Node → Node
  mapped (tensor x) = tensor (g x)
  mapped v = v

  -- The function as `transform` takes it: one tensor for each.
  abbrev pub one_each : Node → List Node
  one_each v = mapped v ∷ []

  abbrev pub mapped_item : Option Node → Option Node
  mapped_item none = none
  mapped_item (some v) = some (mapped v)

module _ (g : Tensor → Tensor) (keeps : (x : Tensor) → (g x).name ≡ x.name) where
  by_name-mapped :
      (flat acc : Tree)
      → Named flat
      → Distinct flat
      → Distinct acc
      → (r : Tree) × (by_name (apply_all (one_each g) (leaf_values flat)) acc ≡ ok r)
        × (Distinct r
            × ((k : Text) → item r k ≡ or_else (mapped_item g (item flat k)) (item acc k)))
  unfolding by_name apply_all leaf_values item
  by_name-mapped empty acc named distinct d = (acc, refl, (d, λ k. refl))
  by_name-mapped (entry k nothing flat) acc named distinct d = absurd named.0
  by_name-mapped (entry k (dict s) flat) acc named distinct d = absurd named.0
  by_name-mapped (entry k (tensor x) flat) acc (own, named) (fresh, distinct) d =
      let (r, run, (dr, items)) =
        by_name-mapped flat (set_item (g x).name (tensor (g x)) acc) named distinct
          (Distinct-set_item (g x).name (tensor (g x)) acc d) in
      (
        r,
        run,
        (
          dr,
          λ j.
              let key : list_eq (g x).name j ≡ list_eq k j =
                ap (λ n. list_eq n j) (keeps x ∙ own) in
              rw (items j, item-set_item (g x).name j (tensor (g x)) acc, key)
                (elim (Bool-cases (list_eq k j)) [
                  | inl e ↦
                      let missing : item flat j ≡ none = rw (← (list_eq_iff k j).0 e) fresh in
                      rw (e, missing) refl
                  | inr e ↦ rw e refl
                ]),
        ),
      )

module _ (g : Tensor → Tensor) where
  mapped-IsTensor : (v : Node) → IsTensor v → IsTensor (mapped g v)
  mapped-IsTensor (tensor x) h = tt
  mapped-IsTensor nothing h = absurd h
  mapped-IsTensor (dict s) h = absurd h

  mapped-some :
      (o : Option Node) (v : Node)
      → mapped_item g o ≡ some v
      → (w : Node) × (o ≡ some w) × (mapped g w ≡ v)
  mapped-some none v e = absurd (cc)
  mapped-some (some w) v e = (w, refl, cc)

-- The named tensors of a flat dictionary, found again in any dictionary with the same entries.
item-Named : (flat : Tree) (k : Text) (v : Node) → Named flat → item flat k ≡ some v → IsNamed k v
unfolding item
item-Named empty k v h e = absurd (cc)
item-Named (entry j w flat) k v h e = elim (Bool-cases (list_eq j k)) [
  | inl f ↦
      let here : some w ≡ some v = rw f at e in
      let same : w ≡ v = cc in
      subst (λ n. IsNamed n v) ((list_eq_iff j k).0 f) (subst (IsNamed j) same h.0)
  | inr f ↦ item-Named flat k v h.1 (rw f at e)
]

Named-rest :
    (k : Text) (v : Node) (other : Tree)
    → item other k ≡ none
    → ((j : Text) (w : Node) → item (entry k v other) j ≡ some w → IsNamed j w)
    → (j : Text) (w : Node) → item other j ≡ some w
    → IsNamed j w
unfolding item
Named-rest k v other fresh h j w e = h j w (rw (item-ne other k j w fresh e) e)

Named-items :
    (other : Tree)
    → Distinct other
    → ((k : Text) (v : Node) → item other k ≡ some v → IsNamed k v)
    → Named other
Named-items empty d h = tt
Named-items (entry k v other) d h =
    (h k v (item-entry k v other), Named-items other d.1 (Named-rest k v other d.0 h))

module _ (g : Tensor → Tensor) (keeps : (x : Tensor) → (g x).name ≡ x.name) (flat : Tree) where
  -- A function that keeps names, applied by `transform` to the nested tree of a flat dictionary with
  -- each tensor under its own name, where no name starts with a dot or goes on from another with one:
  -- the result has at the parts of each name the image of the tensor of the name, and no other leaf.
  pub transform-mapped :
      Flat flat
      → Started flat
      → Named flat
      → (t t' : Tree) × (flat_to_nested_dict flat ≡ ok t)
        × (transform (one_each g) t ≡ ok t')
        × ((name : Text)
            → leaf_at t' (split name).0 (split name).1 ≡ mapped_item g (item flat name))
  unfolding transform flatten attempt item
  transform-mapped h started named =
      let (t, run, leaves) = flat_to_nested_dict-Nested flat h in
      let same = flat_leaves flat h started t run leaves in
      let distinct = Distinct-accum [] t empty tt in
      let names =
        Named-items (flatten t) distinct (λ k v e. item-Named flat k v named (sym (same k) ∙ e)) in
      let (r, made, (dr, items)) = by_name-mapped g keeps (flatten t) empty names distinct tt in
      let own : (k : Text) → item r k ≡ mapped_item g (item flat k) =
        λ k. items k ∙ or_else-none _ ∙ ap (mapped_item g) (same k) in
      let (flats, starts) = Leaves-Flat t r dr (mapped_leaves t r leaves own) in
      let (t', run', leaves') = flat_to_nested_dict-Nested r flats in
      (t, t', run, rw (made, run') refl, λ name. leaves' name ∙ own name)
    where
      mapped_leaves :
          (t r : Tree)
          → ((name : Text) → leaf_at t (split name).0 (split name).1 ≡ item flat name)
          → ((k : Text) → item r k ≡ mapped_item g (item flat k))
          → Leaves t r
      mapped_leaves t r leaves own k v e =
          let (w, there, image) = mapped-some g (item flat k) v (sym (own k) ∙ e) in
          let (one, start) = item-Flat flat k w h started there in
          record {
            is_tensor = subst IsTensor image (mapped-IsTensor g w one);
            start = start;
            value = w;
            at = leaves k ∙ there;
          }
