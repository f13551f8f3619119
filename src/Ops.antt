-- ===== src/Ops.antt =====
-- `SignatureDispatcher` of sharktank/ops/_registry.py: the overrides of an operator, which of them
-- fit the types of some arguments, and the cache of what fits. A type is a number, and so is the
-- function that an override registers. The test hook that remembers the last override is left out.
pub mod Exprs
pub mod Trampolines
pub mod Ranking
pub mod Lookup
pub mod Session
use shark_platform.Prelude.{
  ℕ, ◌≡◌, Bool, true, false, ◌&&◌, ◌||◌, Option, none, some, List, [], ◌∷◌, ◌++◌, length, map, ◌==◌,
  if◌then◌else◌,
}
use shark_platform.Prelude.Int.{ℤ, leb_ℤ}
use shark_platform.Prelude.Dict
use shark_platform.Prelude.Exec.{
  Exec, Error, Result, ok, err, pure, raise, update, attempt, ◌>>=◌, ◌>>◌, type_error,
}

-- What Python and the types of the tensors tell about values.
pub record Runtime (V : Type 0) : Type 0 where
  pub type_of : V → ℕ
  pub none_type : ℕ
  pub issubclass : ℕ → ℕ → Bool
  pub tensor : ℕ
  pub inference_tensor : ℕ
  pub primitive_tensor : ℕ
  pub quantized_tensor : ℕ
  -- `iter(v)`, which not every value supports
  pub iterate : V → Result (List V)

abbrev pub BoolTypeExpr : Type 0
BoolTypeExpr = List ℕ → Bool

pub data ArgSpec : Type 0 where
  anything : ArgSpec
  of_type : ℕ → ArgSpec
  of_expr : BoolTypeExpr → ArgSpec

pub record TargetOverride : Type 0 where
  pub salience : ℤ
  pub target : ℕ
  pub type_spec : List ArgSpec
  pub auto_unbox : Bool
  pub auto_dequant : Bool

pub record SignatureDispatcher : Type 0 where
  pub overrides : List TargetOverride
  pub target_cache : List (List ℕ × List ℕ)

abbrev pub new_dispatcher : SignatureDispatcher
new_dispatcher = record { overrides = []; target_cache = [] }

-- `sort(key=...)`, which is stable.
unfoldable pub place : TargetOverride → List TargetOverride → List TargetOverride
place o [] = o ∷ []
place o (x ∷ xs) =
    let rest = place o xs in if leb_ℤ o.salience x.salience then o ∷ x ∷ xs else x ∷ rest

unfoldable pub sort_by_salience : List TargetOverride → List TargetOverride
sort_by_salience [] = []
sort_by_salience (o ∷ os) = place o (sort_by_salience os)

unfoldable pub override : TargetOverride → SignatureDispatcher → SignatureDispatcher
override o d = record { overrides = sort_by_salience (d.overrides ++ o ∷ []); target_cache = [] }

unfoldable pub reversed : List ℕ → List ℕ
reversed [] = []
reversed (t ∷ ts) = reversed ts ++ t ∷ []

module _ {V : Type 0} (py : Runtime V) where
  open py use {issubclass, tensor, primitive_tensor, quantized_tensor}

  -- The tests of the inner loop that let the loop go on.
  unfoldable pub accepts : TargetOverride → ℕ → ℕ → Bool
  accepts o expected actual =
      issubclass actual expected
      || (issubclass expected tensor
          && ((o.auto_unbox && issubclass actual primitive_tensor)
              || (o.auto_dequant && issubclass actual quantized_tensor)))

  -- The inner loop. `issubclass` raises where the second argument is no class.
  unfoldable pub matches_types : TargetOverride → List ArgSpec → List ℕ → Result Bool
  matches_types o (anything ∷ es) (t ∷ ts) = matches_types o es ts
  matches_types o (of_type e ∷ es) (t ∷ ts) =
      let rest = matches_types o es ts in if accepts o e t then rest else ok false
  matches_types o (of_expr e ∷ es) (t ∷ ts) = err type_error
  matches_types o _ _ = ok true

  unfoldable pub matches_spec : TargetOverride → List ArgSpec → List ℕ → Result Bool
  matches_spec o (of_expr e ∷ []) ts = ok (e ts)
  matches_spec o (of_expr e ∷ s ∷ es) ts = err type_error
  matches_spec o es ts = if length es == length ts then matches_types o es ts else ok false

  unfoldable pub match_targets : List ℕ → List TargetOverride → Result (List ℕ)
  match_targets ts [] = ok []
  match_targets ts (o ∷ os) =
      attempt (matches_spec o o.type_spec ts)
        λ fits. attempt (match_targets ts os) λ found. ok (if fits then o.target ∷ found else found)

  unfoldable pub remember : List ℕ → Result (List ℕ) → Exec SignatureDispatcher (List ℕ)
  remember ts (ok found) d =
      (ok found, record d { target_cache = Dict.put ts found d.target_cache })
  remember ts (err e) d = (err e, d)

  unfoldable pub lookup_targets : List ℕ → Exec SignatureDispatcher (List ℕ)
  lookup_targets ts d = elim (Dict.get ts d.target_cache) [
    | some found ↦ pure found d
    | none ↦ remember ts (match_targets ts d.overrides) d
  ]

  abbrev pub type_of_arg : Option V → ℕ
  type_of_arg none = py.none_type
  type_of_arg (some v) = py.type_of v

  unfoldable pub find_overrides : List (Option V) → Exec SignatureDispatcher (List ℕ)
  find_overrides tensors d =
      (do found ← lookup_targets (map type_of_arg tensors); pure (reversed found)) d
