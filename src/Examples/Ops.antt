-- ===== src/Examples/Ops.antt =====
-- A dispatcher with a few overrides. Types are 0 for `None`, 1 for `Tensor`, 2 for `PrimitiveTensor`,
-- 3 for `QuantizedTensor` and 4 for `InferenceTensor`; a value is its type.
use shark_platform.Prelude.{
  ℕ, ◌≡◌, refl, Bool, true, false, ◌&&◌, ◌||◌, Option, none, some, List, [], ◌∷◌, ◌==◌, ltb,
  if◌then◌else◌,
}
use shark_platform.Prelude.Int.{pos, negsuc}
use shark_platform.Prelude.Exec.{Result, ok, err, attempt, type_error, not_implemented, value_error}
use shark_platform.Ops.{
  Runtime, TargetOverride, anything, of_type, new_dispatcher, accepts, matches_types, matches_spec,
}
use shark_platform.Ops.Exprs.{
  all_zip, all_of_exprs, pad, variadic_expr, all_of_exprs_variadic, any_required, all_of_type,
  any_of_type,
}
use shark_platform.Ops.Ranking.{best, any}
use shark_platform.Ops.Trampolines.{Call, matmul, equal, layer_norm, leading_tensors}
use shark_platform.Ops.Session.{
  Event, register, call, run, replay, answer, dispatched, resolve, preferred,
}
use shark_platform.Ops.Session.Refinement.{run-replay}

abbrev is_subclass : ℕ → ℕ → Bool
is_subclass a b = a == b || (b == 4 && ltb 1 a)

abbrev types : Runtime ℕ
types = record {
  type_of = λ v. v;
  none_type = 0;
  issubclass = is_subclass;
  tensor = 1;
  inference_tensor = 4;
  primitive_tensor = 2;
  quantized_tensor = 3;
  iterate = λ v. err type_error;
}

-- Override 11 is not implemented, and the others return their number.
abbrev bodies : ℕ → Call ℕ → Result (Option ℕ)
bodies t c = if t == 11 then ok none else ok (some t)

abbrev two_tensors : ℕ → TargetOverride
two_tensors t = record {
  salience = pos 0;
  target = t;
  type_spec = of_type 1 ∷ of_type 1 ∷ [];
  auto_unbox = true;
  auto_dequant = false;
}

-- One that fits anything, and comes last.
abbrev fallback : TargetOverride
fallback = record {
  salience = negsuc 0;
  target = 13;
  type_spec = anything ∷ anything ∷ [];
  auto_unbox = true;
  auto_dequant = false;
}

abbrev session : List (Event ℕ)
session =
    register (two_tensors 10)
    ∷ register (two_tensors 11)
    ∷ call (matmul 1 2)
    ∷ call (matmul 1 3)
    ∷ call (matmul 1 2)
    ∷ register fallback
    ∷ call (matmul 1 2)
    ∷ call (matmul 1 3)
    ∷ call (layer_norm 1 (some 1) none)
    ∷ call (equal 1 1)
    ∷ []

-- The quantized tensor finds no override before the fallback is there.
run-replay_example :
    run types bodies session new_dispatcher
    ≡ ok (10, 10)
      ∷ err not_implemented
      ∷ ok (10, 10)
      ∷ ok (10, 10)
      ∷ ok (13, 13)
      ∷ ok (13, 13)
      ∷ ok (10, 10)
      ∷ []
unfolding replay answer dispatched resolve preferred best any attempt accepts matches_types
    matches_spec leading_tensors
run-replay_example = run-replay types bodies session

-- A weight without a bias is dispatched as if it were `None`.
unnoticed_weight :
    run types bodies
      (register (two_tensors 10) ∷ call (layer_norm 1 (some 1) none) ∷ [])
      new_dispatcher
    ≡ err not_implemented ∷ []
unfolding replay answer dispatched resolve preferred best any attempt accepts matches_types
    matches_spec
unnoticed_weight = run-replay types bodies _

no_expressions : all_of_exprs_variadic [] ≡ err value_error
unfolding all_of_exprs_variadic
no_expressions = refl

-- The examples in the doc strings, with 1, 2 and 3 for `int`, `float` and `str`.
abbrev int_float_or_str : List (List ℕ → Bool)
int_float_or_str = all_of_type is_subclass (1 ∷ []) ∷ all_of_type is_subclass (2 ∷ 3 ∷ []) ∷ []

pair_of_types :
    (all_of_exprs int_float_or_str (1 ∷ 3 ∷ []) ≡ true)
    × (all_of_exprs int_float_or_str (1 ∷ 1 ∷ []) ≡ false)
unfolding all_of_exprs all_zip all_of_type any_required
pair_of_types = (refl, refl)

trailing_types :
    variadic_expr
      (all_of_type is_subclass (1 ∷ []))
      (all_of_type is_subclass (2 ∷ 3 ∷ []) ∷ [])
      (1 ∷ 3 ∷ 2 ∷ [])
    ≡ true
unfolding variadic_expr pad all_zip all_of_type any_required
trailing_types = refl

any_type : any_of_type is_subclass (1 ∷ 2 ∷ []) (3 ∷ 1 ∷ []) ≡ true
unfolding any_of_type any_required
any_type = refl
