-- ===== src/Types/Theta/Pop.antt =====
-- What `pop` takes out and what it leaves.
use mathlib.Core.Path.{subst}
use shark_platform.Prelude.{
  ◌≡◌, refl, sym, ap, ◌∙◌, Bool, true, false, not, Option, none, some, List, [], ◌∷◌, list_eq,
  list_eq_iff, if◌then◌else◌, Bool-cases, inl, inr,
}
use shark_platform.Prelude.Exec.{ok, attempt}
use shark_platform.Types.Names.{Text, split, norm_name_path, split-whole}
use shark_platform.Types.Theta.{
  Node, nothing, tensor, dict, Tree, empty, entry, item, set_item, flatten, flat_to_nested_dict,
  add_all, add_to_dict, select, starts_with, join_all, pop,
}
use shark_platform.Types.Theta.Paths.{leaf, sub_tree, leaf_at, item-set_item}
use shark_platform.Types.Theta.Flat.{
  IsTensor, Flat, or_else, or_else-none, flat_to_nested_dict-Nested,
}
use shark_platform.Types.Theta.RoundTrip.{Start, Started, nested-Good}
use shark_platform.Types.Theta.Flattening.{Good, GoodNode, item-flatten}
use shark_platform.Types.Theta.Leaves.{Leaves, Leaves-Flat}
use shark_platform.Types.Theta.Selection.{
  Distinct-accum, takes, item-select, Distinct-select, select-some,
}

-- A nested dictionary is nested already: `flat_to_nested_dict` gives it back.
again :
    (k : Text) (v : Node) (t acc t' : Tree)
    → item t k ≡ none
    → ((j : Text) → item t' j ≡ or_else (item t j) (item (set_item k v acc) j))
    → (j : Text) → item t' j ≡ or_else (item (entry k v t) j) (item acc j)
unfolding item
again k v t acc t' fresh items j = elim (Bool-cases (list_eq k j)) [
  | inl e ↦
      let missing : item t j ≡ none = rw (← (list_eq_iff k j).0 e) fresh in
      rw (items j, item-set_item k j v acc, e, missing) refl
  | inr e ↦ rw (items j, item-set_item k j v acc, e) refl
]

add_all-again :
    (t acc : Tree)
    → Good t
    → (t' : Tree) × (add_all t acc ≡ ok t')
      × ((k : Text) → item t' k ≡ or_else (item t k) (item acc k))
unfolding add_all add_to_dict attempt item Good GoodNode
add_all-again empty acc h = (acc, refl, λ k. refl)
add_all-again (entry k nothing t) acc (free, (fresh, (good, h))) = absurd good
add_all-again (entry k (tensor x) t) acc (free, (fresh, (good, h))) =
    let (t', run, items) = add_all-again t (set_item k (tensor x) acc) h in
    (t', rw (split-whole k free, run) refl, again k (tensor x) t acc t' fresh items)
add_all-again (entry k (dict s) t) acc (free, (fresh, (good, h))) =
    let (t', run, items) = add_all-again t (set_item k (dict s) acc) h in
    (t', rw (split-whole k free, run) refl, again k (dict s) t acc t' fresh items)

leaf_at-cong :
    (t t' : Tree)
    → ((k : Text) → item t' k ≡ item t k)
    → (k : Text) (ks : List Text) → leaf_at t' k ks ≡ leaf_at t k ks
unfolding leaf_at
leaf_at-cong t t' e k [] = ap leaf (e k)
leaf_at-cong t t' e k (q ∷ qs) = ap (λ o. leaf_at (sub_tree o) q qs) (e k)

nested_again :
    (t : Tree)
    → Good t
    → (t' : Tree) × (flat_to_nested_dict t ≡ ok t')
      × ((k : Text) (ks : List Text) → leaf_at t' k ks ≡ leaf_at t k ks)
unfolding flat_to_nested_dict item
nested_again t h =
    let (t', run, items) = add_all-again t empty h in
    (t', run, leaf_at-cong t t' (λ k. items k ∙ or_else-none (item t k)))

pub item-Flat :
    (flat : Tree) (name : Text) (v : Node)
    → Flat flat
    → Started flat
    → item flat name ≡ some v
    → IsTensor v × Start name
unfolding item
item-Flat empty name v h started e = absurd (cc)
item-Flat (entry n w flat) name v h started e = elim (Bool-cases (list_eq n name)) [
  | inl f ↦
      let here : some w ≡ some v = rw f at e in
      let same : w ≡ v = cc in
      (subst IsTensor same h.0, subst Start ((list_eq_iff n name).0 f) started.0)
  | inr f ↦ item-Flat flat name v h.1.1 started.1 (rw f at e)
]

-- A tree has the tensors of `flat` that `select` takes, and no other leaf.
abbrev Selected : Bool → Text → Tree → Tree → Type 0
Selected b name flat r =
    (k : Text) → leaf_at r (split k).0 (split k).1 ≡ (if takes b name k then item flat k else none)

-- What `pop` does with the tensors of a flat dictionary: those whose names start with the path joined
-- by dots are taken out, the others stay.
pub record Popped (flat : Tree) (path : List Text) : Type 0 where
  pub tree : Tree
  pub popped : Tree
  pub rest : Tree
  pub nested : flat_to_nested_dict flat ≡ ok tree
  pub runs : pop path tree ≡ (ok popped, rest)
  pub taken :
      (k : Text)
      → leaf_at popped (split k).0 (split k).1
        ≡ (if starts_with (join_all (norm_name_path path)) k then item flat k else none)
  pub left :
      (k : Text)
      → leaf_at rest (split k).0 (split k).1
        ≡ (if starts_with (join_all (norm_name_path path)) k then none else item flat k)

module _ (flat : Tree) (h : Flat flat) (started : Started flat) where
  pub flat_leaves :
      (t : Tree)
      → flat_to_nested_dict flat ≡ ok t
      → ((name : Text) → leaf_at t (split name).0 (split name).1 ≡ item flat name)
      → (name : Text) → item (flatten t) name ≡ item flat name
  flat_leaves t run leaves name =
      let (good, proper) = nested-Good flat t h started run in
      item-flatten t name good proper ∙ leaves name

  select-Leaves :
      (t : Tree)
      → flat_to_nested_dict flat ≡ ok t
      → ((name : Text) → leaf_at t (split name).0 (split name).1 ≡ item flat name)
      → (b : Bool) (name : Text) → Leaves t (select b name (flatten t))
  select-Leaves t run leaves b name k v e =
      let there : item (flatten t) k ≡ some v = select-some b name k (flatten t) v e in
      let own : item flat k ≡ some v = sym (flat_leaves t run leaves k) ∙ there in
      let (one, start) = item-Flat flat k v h started own in
      record { is_tensor = one; start = start; value = v; at = leaves k ∙ own }

  selected :
      (t : Tree)
      → flat_to_nested_dict flat ≡ ok t
      → ((name : Text) → leaf_at t (split name).0 (split name).1 ≡ item flat name)
      → (b : Bool) (name : Text)
      → (r : Tree) × (flat_to_nested_dict (select b name (flatten t)) ≡ ok r)
        × (Good r × Selected b name flat r)
  unfolding flatten
  selected t run leaves b name =
      let distinct = Distinct-select b name (flatten t) (Distinct-accum [] t empty tt) in
      let (flats, starts) =
        Leaves-Flat t (select b name (flatten t)) distinct (select-Leaves t run leaves b name) in
      let (r, runs, own) = flat_to_nested_dict-Nested (select b name (flatten t)) flats in
      let (good, proper) = nested-Good (select b name (flatten t)) r flats starts runs in
      (
        r,
        runs,
        (
          good,
          λ k.
              own k
              ∙ item-select b name k (flatten t)
              ∙ ap (λ o. if takes b name k then o else none) (flat_leaves t run leaves k),
        ),
      )

flipped_test : (b : Bool) (o : Option Node) → (if not b then o else none) ≡ (if b then none else o)
flipped_test true o = refl
flipped_test false o = refl

popped_tree :
    (path : List Text) (t r p p' : Tree)
    → flat_to_nested_dict (select false (join_all (norm_name_path path)) (flatten t)) ≡ ok r
    → flat_to_nested_dict (select true (join_all (norm_name_path path)) (flatten t)) ≡ ok p
    → flat_to_nested_dict p ≡ ok p'
    → pop path t ≡ (ok p', r)
unfolding pop attempt
popped_tree path t r p p' runs runs' again' = rw (runs, pop) (rw (runs', again') refl)

-- From a flat dictionary of tensors, whose names do not start with a dot and do not go on from each
-- other with one, `pop` takes out just the tensors whose names start with the path joined by dots, and
-- leaves the others, without an exception.
pub pop-Popped : (flat : Tree) (path : List Text) → Flat flat → Started flat → Popped flat path
pop-Popped flat path h started =
    let name = join_all (norm_name_path path) in
    let (t, run, leaves) = flat_to_nested_dict-Nested flat h in
    let (r, runs, (good, own)) = selected flat h started t run leaves false name in
    let (p, runs', (good', own')) = selected flat h started t run leaves true name in
    let (p', again', same) = nested_again p good' in
    record {
      tree = t;
      popped = p';
      rest = r;
      nested = run;
      runs = popped_tree path t r p p' runs runs' again';
      taken = λ k. same (split k).0 (split k).1 ∙ own' k;
      left = λ k. own k ∙ flipped_test (starts_with name k) (item flat k);
    }
