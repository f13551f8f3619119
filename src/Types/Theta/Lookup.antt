-- ===== src/Types/Theta/Lookup.antt =====
-- `tensor`, which looks a name up part by part.
use mathlib.Core.Path.{subst}
use shark_platform.Prelude.{◌≡◌, refl, sym, ap, ◌∙◌, Option, none, some, List, [], ◌∷◌, ◌++◌}
use shark_platform.Prelude.Exec.{Error, ok, err, attempt, key_error}
use shark_platform.Types.Names.{Text, split, parts, norm_name_path}
use shark_platform.Types.Theta.{
  Tensor, Node, nothing, tensor, dict, Tree, item, get, unsnoc, walk, find, get_tensor,
  flat_to_nested_dict,
}
use shark_platform.Types.Theta.Flat.{Flat, flat_to_nested_dict-Nested}
use shark_platform.Types.Theta.Paths.{leaf, sub_tree, leaf_at, leaf_at-empty}

leaf-tensor : (o : Option Node) (x : Tensor) → leaf o ≡ some (tensor x) → o ≡ some (tensor x)
leaf-tensor none x h = absurd (cc)
leaf-tensor (some nothing) x h = h
leaf-tensor (some (tensor y)) x h = h
leaf-tensor (some (dict s)) x h = absurd (cc)

-- Above a leaf there is a dictionary.
above :
    (o : Option Node) (q : Text) (qs : List Text) (x : Tensor)
    → leaf_at (sub_tree o) q qs ≡ some (tensor x)
    → o ≡ some (dict (sub_tree o))
above none q qs x h = absurd (cc (h, leaf_at-empty q qs))
above (some nothing) q qs x h = absurd (cc (h, leaf_at-empty q qs))
above (some (tensor y)) q qs x h = absurd (cc (h, leaf_at-empty q qs))
above (some (dict s)) q qs x h = refl

module _ (not_an_index : Error) where
  find-leaf :
      (t : Tree) (k : Text) (ks : List Text) (x : Tensor)
      → leaf_at t k ks ≡ some (tensor x)
      → find not_an_index (k ∷ ks) (dict t) ≡ ok (tensor x)
  unfolding leaf_at walk attempt
  find-leaf t k [] x h = rw (leaf-tensor (item t k) x h) refl
  find-leaf t k (q ∷ qs) x h =
      let inner = above (item t k) q qs x h in
      subst
        (λ o.
          attempt
            (attempt (elim o [ none ↦ err key_error | some v ↦ ok v ])
              (walk not_an_index (unsnoc q qs).0))
            (λ c. get c (unsnoc q qs).1)
          ≡ ok (tensor x))
        (sym inner) (find-leaf (sub_tree (item t k)) q qs x h)

  append_nil : (ps : List Text) → ps ++ [] ≡ ps
  append_nil [] = refl
  append_nil (p ∷ ps) = ap (◌∷◌ p) (append_nil ps)

  get_tensor-leaf :
      (t : Tree) (name : Text) (x : Tensor)
      → leaf_at t (split name).0 (split name).1 ≡ some (tensor x)
      → get_tensor not_an_index t (name ∷ []) ≡ ok (tensor x)
  unfolding get_tensor norm_name_path parts attempt
  get_tensor-leaf t name x h =
      rw (append_nil (split name).1, find-leaf t (split name).0 (split name).1 x h) refl

  -- A flat dictionary of tensors, in which no name goes on from another with a dot, is nested without an
  -- exception, and `tensor` returns from the nested tree, for a name, the tensor of the name.
  pub get_tensor-flat_to_nested_dict :
      (flat : Tree) (name : Text) (x : Tensor)
      → Flat flat
      → item flat name ≡ some (tensor x)
      → (t : Tree) × (flat_to_nested_dict flat ≡ ok t)
        × (get_tensor not_an_index t (name ∷ []) ≡ ok (tensor x))
  get_tensor-flat_to_nested_dict flat name x h e =
      let (t, run, leaves) = flat_to_nested_dict-Nested flat h in
      (t, run, get_tensor-leaf t name x (leaves name ∙ e))
