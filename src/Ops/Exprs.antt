-- ===== src/Ops/Exprs.antt =====
-- The expressions over types of ops/_registry.py.
use shark_platform.Prelude.{
  ℕ, zero, suc, ◌-◌, Bool, true, false, ◌&&◌, ◌||◌, List, [], ◌∷◌, length, ltb, if◌then◌else◌,
}
use shark_platform.Prelude.Exec.{Result, ok, err, value_error}
use shark_platform.Ops.{BoolTypeExpr}

-- `all([e(t) for e, t in zip(exprs, types)])`
unfoldable pub all_zip : List BoolTypeExpr → List ℕ → Bool
all_zip (e ∷ es) (t ∷ ts) = e (t ∷ []) && all_zip es ts
all_zip _ _ = true

unfoldable pub all_of_exprs : List BoolTypeExpr → BoolTypeExpr
all_of_exprs exprs types = if ltb (length types) (length exprs) then false else all_zip exprs types

-- `exprs + [exprs[-1]] * n`, with `e` the first one.
unfoldable pub pad : BoolTypeExpr → List BoolTypeExpr → ℕ → List BoolTypeExpr
pad e [] zero = e ∷ []
pad e [] (suc n) = e ∷ pad e [] n
pad e (x ∷ xs) n = e ∷ pad x xs n

unfoldable pub variadic_expr : BoolTypeExpr → List BoolTypeExpr → BoolTypeExpr
variadic_expr e es types =
    if ltb (length types) (length (e ∷ es))
    then false
    else all_zip (pad e es (length types - length (e ∷ es))) types

unfoldable pub all_of_exprs_variadic : List BoolTypeExpr → Result BoolTypeExpr
all_of_exprs_variadic [] = err value_error
all_of_exprs_variadic (e ∷ es) = ok (variadic_expr e es)

module _ (issubclass : ℕ → ℕ → Bool) where
  unfoldable pub any_required : ℕ → List ℕ → Bool
  any_required t [] = false
  any_required t (r ∷ required) = issubclass t r || any_required t required

  unfoldable pub all_of_type : List ℕ → BoolTypeExpr
  all_of_type required [] = true
  all_of_type required (t ∷ types) = any_required t required && all_of_type required types

  unfoldable pub any_of_type : List ℕ → BoolTypeExpr
  any_of_type required [] = false
  any_of_type required (t ∷ types) = any_required t required || any_of_type required types
