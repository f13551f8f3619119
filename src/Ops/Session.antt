-- ===== src/Ops/Session.antt =====
-- Any sequence of registrations and calls of operators, against a dispatcher that only remembers
-- the registered overrides, the latest first, and searches them at each call.
pub mod Refinement
use mathlib.Core.Path.{subst}
use shark_platform.Prelude.{
  ℕ, ◌≡◌, refl, sym, ap, ◌∙◌, Bool, true, false, ◌&&◌, Option, none, some, List, [], ◌∷◌, ◌++◌, map,
  if◌then◌else◌, inl, inr, Bool-cases, Option-cases,
}
use shark_platform.Prelude.Exec.{
  Exec, Error, Result, ok, err, pure, raise, attempt, ◌>>=◌, Result-cases, type_error,
  not_implemented,
}
use shark_platform.Ops.{
  Runtime, TargetOverride, SignatureDispatcher, new_dispatcher, override, match_targets, reversed,
  find_overrides, type_of_arg,
}
use shark_platform.Ops.Ranking.{
  ranked, any, last_hit, later, best, last_hit-ranked, any-ranked, Passes, last_hit-Passes,
}
use shark_platform.Ops.Lookup.{
  is_malformed, fits, targets, match_targets-malformed, match_targets-fits, IsCoherent, Answers,
  Answers-bind, new-IsCoherent, override-IsCoherent, find_overrides-Answers,
}
use shark_platform.Ops.Trampolines.{
  Call, all_gather, cat, conv2d, elementwise, equal, gemm, index_put_, layer_norm, linear, matmul,
  scaled_dot_product_attention, squeeze, appended, for_weight, leading_tensors, first_implemented,
  taken, try_overrides, or_else, dispatch, invoke, all_gather_trampoline, cat_trampoline,
  conv2d_trampoline, elementwise_trampoline, equal_trampoline, gemm_trampoline,
  index_put_trampoline, layer_norm_trampoline, linear_trampoline, matmul_trampoline,
  scaled_dot_product_attention_trampoline, squeeze_trampoline,
}

pub data Event (V : Type 0) : Type 0 where
  register : TargetOverride → Event V
  call : Call V → Event V

abbrev pub implements : {B : Type 0} → Result (Option B) → Bool
implements (ok none) = false
implements _ = true

abbrev pub otherwise : {B : Type 0} → Result (ℕ × B) → Option (ℕ × B) → Result (ℕ × B)
otherwise rest none = rest
otherwise rest (some p) = ok p

module _ {V B : Type 0} (py : Runtime V) (apply : ℕ → Call V → Result (Option B)) where
  -- The override fits the types, and does not return `NotImplemented`.
  abbrev pub is_hit : Call V → List ℕ → TargetOverride → Bool
  is_hit c ts o = fits py ts o && implements (apply o.target c)

  abbrev pub result_of : Call V → Option TargetOverride → Result (Option (ℕ × B))
  result_of c none = ok none
  result_of c (some o) = attempt (apply o.target c) (taken o.target (ok none))

  -- The most salient override that fits the types and is implemented, the latest of those.
  unfoldable pub preferred :
      Call V → List TargetOverride → List (Option V) → Result (Option (ℕ × B))
  preferred c os tensors =
      let ts = map (type_of_arg py) tensors in
      if any (is_malformed py ts) os then err type_error else result_of c (best (is_hit c ts) os)

  -- Several lists of tensors are tried one after the other.
  unfoldable pub resolve : Call V → List TargetOverride → List (List (Option V)) → Result (ℕ × B)
  resolve c os [] = err not_implemented
  resolve c os (tensors ∷ more) = attempt (preferred c os tensors) (otherwise (resolve c os more))

  -- The tensors on whose types an operator is dispatched.
  unfoldable pub dispatched : Call V → Result (List (List (Option V)))
  dispatched (all_gather x) = ok ((some x ∷ []) ∷ [])
  dispatched (cat tensors) = ok (map some tensors ∷ [])
  dispatched (conv2d x w b) = ok ((some x ∷ some w ∷ appended b) ∷ [])
  dispatched (elementwise args) = ok (leading_tensors py args ∷ [])
  dispatched (equal a b) = ok ((some a ∷ some b ∷ []) ∷ (some a ∷ []) ∷ [])
  dispatched (gemm a b c) = ok ((some a ∷ some b ∷ c ∷ []) ∷ [])
  dispatched (index_put_ x is v) = ok ((some x ∷ some v ∷ map some is) ∷ [])
  dispatched (layer_norm x w b) = ok ((some x ∷ for_weight w b ++ appended b) ∷ [])
  dispatched (linear x w b) = ok ((some x ∷ some w ∷ appended b) ∷ [])
  dispatched (matmul a b) = ok ((some a ∷ some b ∷ []) ∷ [])
  dispatched (scaled_dot_product_attention q k v a) = ok ((some q ∷ some k ∷ some v ∷ a ∷ []) ∷ [])
  dispatched (squeeze x) = attempt (py.iterate x) λ rows. ok (map some rows ∷ [])

  unfoldable pub answer : List TargetOverride → Call V → Result (ℕ × B)
  answer os c = attempt (dispatched c) (resolve c os)

  unfoldable pub replay : List (Event V) → List TargetOverride → List (Result (ℕ × B))
  replay [] os = []
  replay (register o ∷ es) os = replay es (o ∷ os)
  replay (call c ∷ es) os = answer os c ∷ replay es os

  unfoldable pub run : List (Event V) → SignatureDispatcher → List (Result (ℕ × B))
  run [] d = []
  run (register o ∷ es) d = run es (override o d)
  run (call c ∷ es) d = let (r, e) = invoke py apply c d in r ∷ run es e
