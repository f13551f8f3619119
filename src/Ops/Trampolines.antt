-- ===== src/Ops/Trampolines.antt =====
-- The trampolines of sharktank/ops/signatures.py: on which tensors an operator is dispatched, and
-- what it does with the overrides that are found. A call carries the arguments that can be tensors;
-- what an override makes of a call is a parameter, and `none` stands for `NotImplemented`. Operators
-- that are dispatched on one tensor, or on two, as `all_gather` and `matmul` are, are not repeated.
use shark_platform.Prelude.{
  ℕ, Bool, ◌||◌, Option, none, some, List, [], ◌∷◌, ◌++◌, map, if◌then◌else◌,
}
use shark_platform.Prelude.Exec.{
  Exec, Result, ok, err, pure, raise, attempt, ◌>>=◌, not_implemented,
}
use shark_platform.Ops.{Runtime, SignatureDispatcher, find_overrides}

pub data Call (V : Type 0) : Type 0 where
  all_gather : V → Call V
  cat : List V → Call V
  conv2d : V → V → Option V → Call V
  elementwise : List V → Call V
  equal : V → V → Call V
  gemm : V → V → Option V → Call V
  index_put_ : V → List V → V → Call V
  layer_norm : V → Option V → Option V → Call V
  linear : V → V → Option V → Call V
  matmul : V → V → Call V
  scaled_dot_product_attention : V → V → V → Option V → Call V
  squeeze : V → Call V

abbrev pub appended : {V : Type 0} → Option V → List (Option V)
appended none = []
appended (some v) = some v ∷ []

-- What the loop does with the result of an override.
abbrev pub taken : {B : Type 0} → ℕ → Result (Option (ℕ × B)) → Option B → Result (Option (ℕ × B))
taken t rest none = rest
taken t rest (some b) = ok (some (t, b))

abbrev pub for_weight : {V : Type 0} → Option V → Option V → List (Option V)
for_weight none bias = []
for_weight (some _) bias = bias ∷ []

module _ {V : Type 0} (py : Runtime V) where
  abbrev pub is_tensor : V → Bool
  is_tensor v =
      py.issubclass (py.type_of v) py.tensor || py.issubclass (py.type_of v) py.inference_tensor

  unfoldable pub leading_tensors : List V → List (Option V)
  leading_tensors [] = []
  leading_tensors (a ∷ args) =
      let rest = leading_tensors args in if is_tensor a then some a ∷ rest else []

module _ {V B : Type 0} (py : Runtime V) (apply : ℕ → Call V → Result (Option B)) where
  -- The loop over the overrides.
  unfoldable pub first_implemented : Call V → List ℕ → Result (Option (ℕ × B))
  first_implemented c [] = ok none
  first_implemented c (t ∷ ts) = attempt (apply t c) (taken t (first_implemented c ts))

  abbrev pub lift : {A : Type 0} → Result A → Exec SignatureDispatcher A
  lift r d = (r, d)

  unfoldable pub try_overrides :
      Call V → List (Option V) → Exec SignatureDispatcher (Option (ℕ × B))
  unfolding ◌>>=◌
  try_overrides c tensors d =
      (do found ← find_overrides py tensors; lift (first_implemented c found)) d

  -- What follows the loop when it is left without a result.
  unfoldable pub or_else :
      Exec SignatureDispatcher (ℕ × B) → Option (ℕ × B) → Exec SignatureDispatcher (ℕ × B)
  or_else rest none = rest
  or_else rest (some p) = pure p

  -- `d.fail(tensors)`
  abbrev pub fail : Exec SignatureDispatcher (ℕ × B)
  fail = raise not_implemented

  unfoldable pub dispatch : Call V → List (Option V) → Exec SignatureDispatcher (ℕ × B)
  unfolding ◌>>=◌
  dispatch c tensors = try_overrides c tensors >>= or_else fail

  unfoldable pub all_gather_trampoline : V → Exec SignatureDispatcher (ℕ × B)
  all_gather_trampoline x = dispatch (all_gather x) (some x ∷ [])

  unfoldable pub cat_trampoline : List V → Exec SignatureDispatcher (ℕ × B)
  cat_trampoline tensors = dispatch (cat tensors) (map some tensors)

  unfoldable pub conv2d_trampoline : V → V → Option V → Exec SignatureDispatcher (ℕ × B)
  conv2d_trampoline x weight bias =
      dispatch (conv2d x weight bias) (some x ∷ some weight ∷ appended bias)

  unfoldable pub elementwise_trampoline : List V → Exec SignatureDispatcher (ℕ × B)
  elementwise_trampoline args = dispatch (elementwise args) (leading_tensors py args)

  -- First the overrides for both operands, then those for the first.
  unfoldable pub equal_trampoline : V → V → Exec SignatureDispatcher (ℕ × B)
  equal_trampoline a b =
      try_overrides (equal a b) (some a ∷ some b ∷ [])
      >>= or_else (dispatch (equal a b) (some a ∷ []))

  unfoldable pub gemm_trampoline : V → V → Option V → Exec SignatureDispatcher (ℕ × B)
  gemm_trampoline a b c = dispatch (gemm a b c) (some a ∷ some b ∷ c ∷ [])

  unfoldable pub index_put_trampoline : V → List V → V → Exec SignatureDispatcher (ℕ × B)
  index_put_trampoline inout indices values =
      dispatch (index_put_ inout indices values) (some inout ∷ some values ∷ map some indices)

  -- The bias stands where the weight is meant.
  unfoldable pub layer_norm_trampoline : V → Option V → Option V → Exec SignatureDispatcher (ℕ × B)
  layer_norm_trampoline x weight bias =
      dispatch (layer_norm x weight bias) (some x ∷ for_weight weight bias ++ appended bias)

  unfoldable pub linear_trampoline : V → V → Option V → Exec SignatureDispatcher (ℕ × B)
  linear_trampoline x weight bias =
      dispatch (linear x weight bias) (some x ∷ some weight ∷ appended bias)

  unfoldable pub matmul_trampoline : V → V → Exec SignatureDispatcher (ℕ × B)
  matmul_trampoline lhs rhs = dispatch (matmul lhs rhs) (some lhs ∷ some rhs ∷ [])

  unfoldable pub scaled_dot_product_attention_trampoline :
      V → V → V → Option V → Exec SignatureDispatcher (ℕ × B)
  scaled_dot_product_attention_trampoline q k v a =
      dispatch (scaled_dot_product_attention q k v a) (some q ∷ some k ∷ some v ∷ a ∷ [])

  abbrev squeeze_rows : V → Result (List V) → Exec SignatureDispatcher (ℕ × B)
  squeeze_rows x (ok rows) = dispatch (squeeze x) (map some rows)
  squeeze_rows x (err e) = raise e

  -- The overrides are looked up for the tensor itself, whose items are its rows.
  unfoldable pub squeeze_trampoline : V → Exec SignatureDispatcher (ℕ × B)
  squeeze_trampoline x = squeeze_rows x (py.iterate x)

  -- A call of an operator.
  unfoldable pub invoke : Call V → Exec SignatureDispatcher (ℕ × B)
  invoke (all_gather x) = all_gather_trampoline x
  invoke (cat tensors) = cat_trampoline tensors
  invoke (conv2d x weight bias) = conv2d_trampoline x weight bias
  invoke (elementwise args) = elementwise_trampoline args
  invoke (equal a b) = equal_trampoline a b
  invoke (gemm a b c) = gemm_trampoline a b c
  invoke (index_put_ inout indices values) = index_put_trampoline inout indices values
  invoke (layer_norm x weight bias) = layer_norm_trampoline x weight bias
  invoke (linear x weight bias) = linear_trampoline x weight bias
  invoke (matmul lhs rhs) = matmul_trampoline lhs rhs
  invoke (scaled_dot_product_attention q k v a) = scaled_dot_product_attention_trampoline q k v a
  invoke (squeeze x) = squeeze_trampoline x
