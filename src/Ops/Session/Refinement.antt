-- ===== src/Ops/Session/Refinement.antt =====
-- `run` gives what `replay` gives.
use mathlib.Core.Path.{subst}
use shark_platform.Prelude.{
  ℕ, ◌≡◌, refl, ap, ◌∙◌, Bool, true, false, ◌&&◌, Option, none, some, List, [], ◌∷◌, ◌++◌, map,
  if◌then◌else◌, inl, inr, Bool-cases,
}
use shark_platform.Prelude.Exec.{Exec, Result, ok, err, attempt, Result-cases}
use shark_platform.Ops.{
  Runtime, TargetOverride, SignatureDispatcher, new_dispatcher, override, match_targets, reversed,
  type_of_arg,
}
use shark_platform.Ops.Ranking.{
  ranked, any, last_hit, later, last_hit-ranked, any-ranked, Passes, last_hit-Passes,
}
use shark_platform.Ops.Lookup.{
  is_malformed, fits, targets, match_targets-malformed, match_targets-fits, IsCoherent, Answers,
  Answers-bind, new-IsCoherent, override-IsCoherent, find_overrides-Answers,
}
use shark_platform.Ops.Trampolines.{
  Call, all_gather, cat, conv2d, elementwise, equal, gemm, index_put_, layer_norm, linear, matmul,
  scaled_dot_product_attention, squeeze, first_implemented, taken, try_overrides, or_else, dispatch,
  invoke, all_gather_trampoline, cat_trampoline, conv2d_trampoline, elementwise_trampoline,
  equal_trampoline, gemm_trampoline, index_put_trampoline, layer_norm_trampoline, linear_trampoline,
  matmul_trampoline, scaled_dot_product_attention_trampoline, squeeze_trampoline,
}
use shark_platform.Ops.Session.{
  Event, register, call, implements, otherwise, is_hit, result_of, preferred, resolve, dispatched,
  answer, replay, run,
}

module _ {B : Type 0} where
  abbrev then_try : Result (Option (ℕ × B)) → Option (ℕ × B) → Result (Option (ℕ × B))
  then_try rest none = rest
  then_try rest (some p) = ok (some p)

  attempt-taken :
      (t : ℕ) (r : Result (Option B)) (rest more : Result (Option (ℕ × B)))
      → attempt r (taken t (attempt rest (then_try more)))
        ≡ attempt (attempt r (taken t rest)) (then_try more)
  unfolding attempt
  attempt-taken t (ok none) rest more = refl
  attempt-taken t (ok (some b)) rest more = refl
  attempt-taken t (err e) rest more = refl

  attempt-idle :
      (t : ℕ) (r : Result (Option B))
      → implements r ≡ false
      → attempt r (taken t (ok none)) ≡ ok none
  unfolding attempt
  attempt-idle t (ok none) h = refl
  attempt-idle t (ok (some b)) h = absurd (cc)
  attempt-idle t (err e) h = absurd (cc)

  attempt-hit :
      (t : ℕ) (r : Result (Option B)) (more : Result (Option (ℕ × B)))
      → implements r ≡ true
      → attempt (attempt r (taken t (ok none))) (then_try more) ≡ attempt r (taken t (ok none))
  unfolding attempt
  attempt-hit t (ok none) more h = absurd (cc)
  attempt-hit t (ok (some b)) more h = refl
  attempt-hit t (err e) more h = refl

and_right : (a b : Bool) → (a && b) ≡ true → b ≡ true
and_right true b h = h
and_right false b h = absurd (cc)

later-none : (found : Option TargetOverride) → later found none ≡ found
later-none (some x) = refl
later-none none = refl

module _ {V B : Type 0} (py : Runtime V) (apply : ℕ → Call V → Result (Option B)) where
  first_implemented-append :
      (c : Call V) (ts : List ℕ) (t : ℕ)
      → first_implemented py apply c (ts ++ t ∷ [])
        ≡ attempt
            (first_implemented py apply c ts)
            (then_try (attempt (apply t c) (taken t (ok none))))
  unfolding first_implemented attempt
  first_implemented-append c [] t = refl
  first_implemented-append c (u ∷ ts) t = rw (first_implemented-append c ts t) (
      attempt-taken u (apply u c) (first_implemented py apply c ts)
        (attempt (apply t c) (taken t (ok none))))

  -- One override more at the end of what is kept.
  result_of-later :
      (c : Call V) (ts : List ℕ) (o : TargetOverride) (found : Option TargetOverride)
      → Passes (is_hit py apply c ts) found
      → attempt (result_of py apply c found) (then_try (result_of py apply c (some o)))
        ≡ result_of py apply c
            (later found (if implements (apply o.target c) then some o else none))
  unfolding attempt
  result_of-later c ts o none h = elim (Bool-cases (implements (apply o.target c))) [
    | inl y ↦ rw y refl
    | inr n ↦ rw n (attempt-idle o.target (apply o.target c) n)
  ]
  result_of-later c ts o (some b) h =
      attempt-hit b.target (apply b.target c) _ (and_right (fits py ts b) _ h)

  first_implemented-targets :
      (c : Call V) (ts : List ℕ) (os : List TargetOverride)
      → first_implemented py apply c (reversed (targets (fits py ts) os))
        ≡ result_of py apply c (last_hit (is_hit py apply c ts) os)
  unfolding targets reversed last_hit first_implemented
  first_implemented-targets c ts [] = refl
  first_implemented-targets c ts (o ∷ os) = elim (Bool-cases (fits py ts o)) [
    | inl y ↦
        rw
          (
            y,
            first_implemented-append c (reversed (targets (fits py ts) os)) o.target,
            first_implemented-targets c ts os,
          )
          (result_of-later c ts o (last_hit (is_hit py apply c ts) os)
            (last_hit-Passes (is_hit py apply c ts) os))
    | inr n ↦
        rw (n, later-none (last_hit (is_hit py apply c ts) os)) (first_implemented-targets c ts os)
  ]

  match_targets-preferred :
      (c : Call V) (os : List TargetOverride) (tensors : List (Option V))
      → attempt
          (attempt
            (match_targets py (map (type_of_arg py) tensors) (ranked os))
            λ found. ok (reversed found))
          (first_implemented py apply c)
        ≡ preferred py apply c os tensors
  unfolding preferred attempt
  match_targets-preferred c os tensors =
      let ts = map (type_of_arg py) tensors in
      let kept = any-ranked (is_malformed py ts) os in
      elim (Bool-cases (any (is_malformed py ts) os)) [
        | inl y ↦ rw (match_targets-malformed py ts (ranked os) (kept ∙ y), y) refl
        | inr n ↦
            rw (match_targets-fits py ts (ranked os) (kept ∙ n), n)
              (first_implemented-targets c ts (ranked os)
                ∙ ap (result_of py apply c) (last_hit-ranked (is_hit py apply c ts) os))
      ]

  try_overrides-preferred :
      (c : Call V) (os : List TargetOverride) (tensors : List (Option V))
      → Answers py os (try_overrides py apply c tensors) (preferred py apply c os tensors)
  unfolding try_overrides
  try_overrides-preferred c os tensors =
      subst (Answers py os (try_overrides py apply c tensors))
        (match_targets-preferred c os tensors)
        (Answers-bind py os _ _ _ _ (find_overrides-Answers py tensors os) λ found d h. (refl, h))

  or_else-Answers :
      (os : List TargetOverride) (rest : Exec SignatureDispatcher (ℕ × B)) (r : Result (ℕ × B))
      → Answers py os rest r
      → (p : Option (ℕ × B)) → Answers py os (or_else py apply rest p) (otherwise r p)
  unfolding or_else
  or_else-Answers os rest r h none d c = h d c
  or_else-Answers os rest r h (some p) d c = (refl, c)

  dispatch-resolve :
      (c : Call V) (os : List TargetOverride) (tensors : List (Option V))
      → Answers py os (dispatch py apply c tensors) (resolve py apply c os (tensors ∷ []))
  unfolding dispatch resolve
  dispatch-resolve c os tensors =
      Answers-bind py os _ _ _ _ (try_overrides-preferred c os tensors)
        (or_else-Answers os _ _ λ d h. (refl, h))

  invoke-answer :
      (c : Call V) (os : List TargetOverride)
      → Answers py os (invoke py apply c) (answer py apply os c)
  unfolding invoke answer dispatched attempt all_gather_trampoline cat_trampoline conv2d_trampoline
      elementwise_trampoline equal_trampoline gemm_trampoline index_put_trampoline
      layer_norm_trampoline linear_trampoline matmul_trampoline
      scaled_dot_product_attention_trampoline squeeze_trampoline resolve
  invoke-answer (all_gather x) os = dispatch-resolve _ os _
  invoke-answer (cat tensors) os = dispatch-resolve _ os _
  invoke-answer (conv2d x w b) os = dispatch-resolve _ os _
  invoke-answer (elementwise args) os = dispatch-resolve _ os _
  invoke-answer (equal a b) os =
      Answers-bind py os _ _ _ _ (try_overrides-preferred _ os _)
        (or_else-Answers os _ _ (dispatch-resolve _ os _))
  invoke-answer (gemm a b c) os = dispatch-resolve _ os _
  invoke-answer (index_put_ x is v) os = dispatch-resolve _ os _
  invoke-answer (layer_norm x w b) os = dispatch-resolve _ os _
  invoke-answer (linear x w b) os = dispatch-resolve _ os _
  invoke-answer (matmul a b) os = dispatch-resolve _ os _
  invoke-answer (scaled_dot_product_attention q k v a) os = dispatch-resolve _ os _
  invoke-answer (squeeze x) os = elim (Result-cases (py.iterate x)) [
    | inl (rows, e) ↦ rw e (dispatch-resolve _ os _)
    | inr (x, e) ↦ rw e (λ d c. (refl, c))
  ]

  run_refines :
      (es : List (Event V)) (os : List TargetOverride) (d : SignatureDispatcher)
      → IsCoherent py os d
      → run py apply es d ≡ replay py apply es os
  unfolding run replay
  run_refines [] os d h = refl
  run_refines (register o ∷ es) os d h =
      run_refines es (o ∷ os) (override o d) (override-IsCoherent py o os d h)
  run_refines (call c ∷ es) os d h =
      let (e, k) = invoke-answer c os d h in
      rw (e, run_refines es os (invoke py apply c d).1 k) refl

  -- From a new dispatcher, every call in any sequence of registrations and calls gives what the
  -- search of the overrides registered so far gives: the result of the most salient override that fits
  -- the types of the tensors and is implemented, the latest of those, or the exception.
  pub run-replay : (es : List (Event V)) → run py apply es new_dispatcher ≡ replay py apply es []
  run-replay es = run_refines es [] new_dispatcher (new-IsCoherent py)
