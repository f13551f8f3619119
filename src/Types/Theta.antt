-- ===== src/Types/Theta.antt =====
-- sharktank/sharktank/types/theta.py: `Theta`, the pack of a model's parameters, and the dictionaries
-- in it. A dictionary keeps the order in which its keys came. Writes go to the dictionary of the model
-- alone, where Python also changes a dictionary that a caller has put in as a value.
pub mod Paths
pub mod Nesting
pub mod Flat
pub mod Prefixes
pub mod Flattening
pub mod RoundTrip
pub mod Lookup
pub mod Leaves
pub mod Selection
pub mod Pop
pub mod Transform
use shark_platform.Prelude.{
  ℕ, Bool, true, false, ◌&&◌, not, Option, none, some, List, [], ◌∷◌, ◌++◌, list_eq, ◌==◌,
  if◌then◌else◌,
}
use shark_platform.Prelude.Exec.{
  Error, Result, ok, err, attempt, key_error, assertion_error, index_error, type_error,
  attribute_error,
}
use shark_platform.Types.Names.{Text, dot, split, join, norm_name_path}

-- What matters of a tensor: its name, and the object that it is.
pub record Tensor : Type 0 where
  pub name : Text
  pub object : ℕ

-- A value is `None`, a tensor or a dictionary.
mutual
  pub data Node : Type 0 where
    nothing : Node
    tensor : Tensor → Node
    dict : Tree → Node

  pub data Tree : Type 0 where
    empty : Tree
    entry : Text → Node → Tree → Tree

-- d.get(k)
unfoldable pub item : Tree → Text → Option Node
item empty k = none
item (entry j v t) k = if list_eq j k then some v else item t k

-- d[k] = v
unfoldable pub set_item : Text → Node → Tree → Tree
set_item k v empty = entry k v empty
set_item k v (entry j w t) = if list_eq j k then entry j v t else entry j w (set_item k v t)

-- The dictionary to go on in: a new one where there is no such key.
abbrev pub child : Option Node → Result Tree
child none = ok empty
child (some (dict s)) = ok s
child (some v) = err assertion_error

-- The last part of a name: `None` is not kept.
abbrev pub assign : Text → Node → Tree → Tree
assign k nothing t = t
assign k v t = set_item k v t

-- `add_to_dict` inside `flat_to_nested_dict`, with the parts of the name.
unfoldable pub add_to_dict : Text → List Text → Node → Tree → Result Tree
add_to_dict k [] v t = ok (assign k v t)
add_to_dict k (p ∷ ps) v t =
    attempt (child (item t k))
      (λ s. attempt (add_to_dict p ps v s) (λ s'. ok (set_item k (dict s') t)))

-- The loop over `flat.items()`.
unfoldable pub add_all : Tree → Tree → Result Tree
add_all empty nested = ok nested
add_all (entry name v flat) nested =
    attempt (add_to_dict (split name).0 (split name).1 v nested) (add_all flat)

unfoldable pub flat_to_nested_dict : Tree → Result Tree
flat_to_nested_dict flat = add_all flat empty

-- f"{prefix}.{key}" if prefix else key
abbrev pub new_prefix : Text → Text → Text
new_prefix [] key = key
new_prefix (c ∷ prefix) key = (c ∷ prefix) ++ dot ∷ key

-- `accum` inside `Theta.flatten`, with the results so far.
unfoldable pub accum : Text → Tree → Tree → Tree
accum prefix empty results = results
accum prefix (entry key (dict s) t) results =
    accum prefix t (accum (new_prefix prefix key) s results)
accum prefix (entry key nothing t) results =
    accum prefix t (set_item (new_prefix prefix key) nothing results)
accum prefix (entry key (tensor x) t) results =
    accum prefix t (set_item (new_prefix prefix key) (tensor x) results)

unfoldable pub flatten : Tree → Tree
flatten t = accum [] t empty

-- `_leaf_values` and `_all_keys`
unfoldable pub leaf_values : Tree → List Node
leaf_values empty = []
leaf_values (entry k (dict s) t) = leaf_values s ++ leaf_values t
leaf_values (entry k nothing t) = nothing ∷ leaf_values t
leaf_values (entry k (tensor x) t) = tensor x ∷ leaf_values t

unfoldable pub all_keys : Tree → List Text
all_keys empty = []
all_keys (entry k (dict s) t) = k ∷ all_keys s ++ all_keys t
all_keys (entry k nothing t) = k ∷ all_keys t
all_keys (entry k (tensor x) t) = k ∷ all_keys t

-- v.get(k), where a missing key gives `None`
abbrev pub get : Node → Text → Result Node
get (dict t) k = ok (elim (item t k) [ none ↦ nothing | some v ↦ v ])
get v k = err attribute_error

-- All parts but the last, and the last.
abbrev pub unsnoc : Text → List Text → List Text × Text
unsnoc p [] = ([], p)
unsnoc p (q ∷ qs) = let (init, last) = unsnoc q qs in (p ∷ init, last)

-- A tensor that is indexed by a name raises what torch raises then.
module _ (not_an_index : Error) where
  -- v[k]
  abbrev pub index_node : Node → Text → Result Node
  index_node nothing k = err type_error
  index_node (tensor x) k = err not_an_index
  index_node (dict t) k = elim (item t k) [ none ↦ err key_error | some v ↦ ok v ]

  -- for part in name_path: current_ts = current_ts[str(part)]
  unfoldable pub walk : List Text → Node → Result Node
  walk [] v = ok v
  walk (p ∷ ps) v = attempt (index_node v p) (walk ps)

  abbrev pub find : List Text → Node → Result Node
  find [] v = err index_error
  find (p ∷ ps) v = let (init, last) = unsnoc p ps in attempt (walk init v) (λ c. get c last)

  unfoldable pub optional_tensor : Tree → List Text → Result Node
  optional_tensor t name_path = find (norm_name_path name_path) (dict t)

  abbrev pub present : Node → Result Node
  present nothing = err key_error
  present v = ok v

  unfoldable pub get_tensor : Tree → List Text → Result Node
  unfolding optional_tensor
  get_tensor t name_path = attempt (optional_tensor t name_path) present

  -- A dictionary becomes a `Theta` of its own.
  abbrev pub sub_theta : Node → Result Node
  sub_theta nothing = err type_error
  sub_theta (tensor x) = ok (tensor x)
  sub_theta (dict s) = attempt (flat_to_nested_dict s) (λ s'. ok (dict s'))

  unfoldable pub call : Tree → List Text → Result Node
  unfolding walk
  call t name_path = attempt (walk (norm_name_path name_path) (dict t)) sub_theta

-- key.startswith(name)
unfoldable pub starts_with : Text → Text → Bool
starts_with [] key = true
starts_with (c ∷ name) [] = false
starts_with (c ∷ name) (d ∷ key) = c == d && starts_with name key

-- The entries whose keys start with a name, or those whose keys do not.
unfoldable pub select : Bool → Text → Tree → Tree
select with_name name empty = empty
select with_name name (entry k v t) =
    let rest = select with_name name t in
    if (if with_name then starts_with name k else not (starts_with name k))
    then entry k v rest
    else rest

abbrev pub join_all : List Text → Text
join_all [] = []
join_all (p ∷ ps) = join p ps

-- `pop`: the subtree as a `Theta`, and the tree that stays.
unfoldable pub pop : List Text → Tree → Result Tree × Tree
pop name_path t =
    let name = join_all (norm_name_path name_path) in
    let flat = flatten t in
    elim (flat_to_nested_dict (select false name flat)) [
      | err e ↦ (err e, t)
      | ok rest ↦ (attempt (flat_to_nested_dict (select true name flat)) flat_to_nested_dict, rest)
    ]

-- {t.name: t for t in tensors}
unfoldable pub by_name : List Node → Tree → Result Tree
by_name [] named = ok named
by_name (tensor x ∷ vs) named = by_name vs (set_item x.name (tensor x) named)
by_name (v ∷ vs) named = err attribute_error

-- `transform` by one function, which gives no tensor, one or several.
unfoldable pub apply_all : (Node → List Node) → List Node → List Node
apply_all f [] = []
apply_all f (v ∷ vs) = f v ++ apply_all f vs

unfoldable pub transform : (Node → List Node) → Tree → Result Tree
transform f t = attempt (by_name (apply_all f (leaf_values (flatten t))) empty) flat_to_nested_dict
