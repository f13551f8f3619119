-- ===== src/Tuner/Solutions/Found.antt =====
-- The solutions that the loop finds: each meets the constraints, no two agree, and none is left out.
use shark_platform.Prelude.{
  ℕ, zero, suc, ◌≤◌, ◌<◌, ◌≡◌, ◌≢◌, refl, true, false, not, Option, none, some, List, [], ◌∷◌,
  arith, length, All, list_eq, list_eq_iff, ◌⊎◌, inl, inr, Bool-cases, Option-cases,
}
use shark_platform.Prelude.Exec.{Result-cases, Error, Result, ok, err}
use shark_platform.Tuner.Problem.{ProblemSize, MmaIntrinsic}
use shark_platform.Tuner.Constraints.{Vars, Constraint, satisfies}
use shark_platform.Tuner.Solutions.{
  CompilationInfo, compilation_info, all_vars, differs, Solutions, no_more, solution, attr_of,
  solve,
}

-- No assignment of the list agrees with `key` on the variables of the caller.
abbrev pub Fresh : List ℕ → List Vars → Type 0
Fresh key = All (λ w. all_vars w ≢ key)

abbrev pub Distinct : List Vars → Type 0
Distinct [] = Unit
Distinct (v ∷ vs) = Fresh (all_vars v) vs × Distinct vs

abbrev pub Listed : List ℕ → List Vars → Type 0
Listed key [] = ⊥
Listed key (v ∷ vs) = (key ≡ all_vars v) ⊎ Listed key vs

-- Each solution is built from its assignment and an intrinsic for it.
abbrev pub Built : (Vars → Result MmaIntrinsic) → List Vars → List CompilationInfo → Type 0
Built attr [] [] = Unit
Built attr [] (i ∷ is) = ⊥
Built attr (v ∷ vs) [] = ⊥
Built attr (v ∷ vs) (i ∷ is) =
    ((a : MmaIntrinsic) × (attr v ≡ ok a) × (i ≡ compilation_info v a)) × Built attr vs is

All-imp {ℓ κ} :
    {A : Type ℓ} (P Q : A → Type κ) (xs : List A) → ((a : A) → P a → Q a) → All P xs → All Q xs
All-imp P Q [] f h = tt
All-imp P Q (x ∷ xs) f h = (f x h.0, All-imp P Q xs f h.1)

-- What the loop finds with `limit` rounds.
pub record Found (attr : Vars → Result MmaIntrinsic) (limit : ℕ) (cs : List Constraint)
    (s : Solutions) : Type 0 where
  pub met : All (λ v. satisfies cs v ≡ true) s.found
  pub distinct : Distinct s.found
  pub bounded : length s.found ≤ limit
  pub built : Built attr s.found s.infos
  pub exhausted :
      s.failure ≡ none
      → length s.found < limit
      → (v : Vars) → satisfies cs v ≡ true
      → Listed (all_vars v) s.found
  pub failed :
      (e : Error) → s.failure ≡ some e → (v : Vars) × (satisfies cs v ≡ true) × (attr v ≡ err e)

lists-ne : (a b : List ℕ) → not (list_eq a b) ≡ true → a ≢ b
lists-ne a b h e = ground (arith, list_eq_iff a b)

differs-ne : (v w : Vars) → differs v w ≡ true → all_vars w ≢ all_vars v
unfolding differs
differs-ne v w h = lists-ne (all_vars w) (all_vars v) h

differs_of : (v w : Vars) → list_eq (all_vars w) (all_vars v) ≡ false → differs v w ≡ true
unfolding differs
differs_of v w h = rw h refl

module _ (check : List Constraint → Option Vars) (all_intrinsics : List MmaIntrinsic)
    (p : ProblemSize) where
  abbrev attr : Vars → Result MmaIntrinsic
  attr = attr_of check all_intrinsics p

  Found-solution :
      (limit : ℕ) (cs : List Constraint) (v : Vars) (a : MmaIntrinsic) (s : Solutions)
      → satisfies cs v ≡ true
      → attr v ≡ ok a
      → Found attr limit (differs v ∷ cs) s
      → Found attr (suc limit) cs (solution v a s)
  unfolding satisfies
  Found-solution limit cs v a s h g f = record {
    met = (h, All-imp _ _ s.found (λ w m. ground arith) f.met);
    distinct = (All-imp _ _ s.found (λ w m. differs-ne v w (ground arith)) f.met, f.distinct);
    bounded = omega (arith, f.bounded);
    built = ((a, g, refl), f.built);
    exhausted = λ n few w m. elim (Bool-cases (list_eq (all_vars w) (all_vars v))) [
      | inl same ↦ inl ((list_eq_iff _ _).0 same)
      | inr other ↦ inr (f.exhausted n (omega (arith, few)) w (rw (differs_of v w other, m) refl))
    ];
    failed = λ e x. let (w, m, y) = f.failed e x in (w, ground arith, y);
  }

  module _ (limit : ℕ) (cs : List Constraint) where
    solve_unsat : check cs ≡ none → solve check all_intrinsics p (suc limit) cs ≡ no_more none
    unfolding solve
    solve_unsat e = rw (e, solve) refl

    solve_ok :
        (v : Vars) (a : MmaIntrinsic)
        → check cs ≡ some v
        → attr v ≡ ok a
        → solve check all_intrinsics p (suc limit) cs
          ≡ solution v a (solve check all_intrinsics p limit (differs v ∷ cs))
    unfolding solve
    solve_ok v a e g = rw (e, solve) (rw g refl)

    solve_err :
        (v : Vars) (x : Error)
        → check cs ≡ some v
        → attr v ≡ err x
        → solve check all_intrinsics p (suc limit) cs ≡ no_more (some x)
    unfolding solve
    solve_err v x e g = rw (e, solve) (rw g refl)

-- The constraints of a search after some assignments have been excluded.
abbrev pub excluded : List Constraint → List Vars → List Constraint
excluded cs [] = cs
excluded cs (v ∷ vs) = differs v ∷ excluded cs vs

module _ (check : List Constraint → Option Vars) (all_intrinsics : List MmaIntrinsic)
    (p : ProblemSize) (cs : List Constraint)
    (sat : (vs : List Vars) (v : Vars)
      → check (excluded cs vs) ≡ some v
      → satisfies (excluded cs vs) v ≡ true)
    (unsat : (vs : List Vars) (v : Vars)
      → check (excluded cs vs) ≡ none
      → satisfies (excluded cs vs) v ≡ false) where
  solve-excluded :
      (limit : ℕ) (vs : List Vars)
      → Found
          (attr_of check all_intrinsics p)
          limit
          (excluded cs vs)
          (solve check all_intrinsics p limit (excluded cs vs))
  unfolding solve
  solve-excluded zero vs = record {
    met = tt;
    distinct = tt;
    bounded = omega arith;
    built = tt;
    exhausted = λ n few v m. absurd (omega (arith, few));
    failed = λ e x. absurd (cc);
  }
  solve-excluded (suc limit) vs = elim (Option-cases (check (excluded cs vs))) [
    | inl e ↦ rw (solve_unsat check all_intrinsics p limit (excluded cs vs) e) (record {
      met = tt;
      distinct = tt;
      bounded = omega arith;
      built = tt;
      exhausted = λ n few v m. absurd (ground (arith, unsat vs v e));
      failed = λ x y. absurd (cc);
    })
    | inr (v, e) ↦ elim (Result-cases (attr_of check all_intrinsics p v)) [
      | inl (a, g) ↦ rw (solve_ok check all_intrinsics p limit (excluded cs vs) v a e g) (
          Found-solution check all_intrinsics p limit (excluded cs vs) v a _ (sat vs v e) g
            (solve-excluded limit (v ∷ vs)))
      | inr (x, g) ↦ rw (solve_err check all_intrinsics p limit (excluded cs vs) v x e g) (record {
        met = tt;
        distinct = tt;
        bounded = omega arith;
        built = tt;
        exhausted = λ n few w m. absurd (cc);
        failed = λ y z. (v, sat vs v e, cc (g, z));
      })
    ]
  ]

  -- In a search, with some assignments excluded, the solver answers with an assignment that meets the
  -- constraints, or with none where there is no such assignment. Then the solutions of the loop meet
  -- the constraints, no two agree on the caller's variables, there are no more than the limit, and each
  -- is built with an intrinsic for it. If they are fewer and no exception is raised, every assignment
  -- that meets the constraints agrees with one of them on the caller's variables; an exception comes
  -- from an assignment that meets the constraints and has no intrinsic.
  pub solve-Found :
      (limit : ℕ)
      → Found (attr_of check all_intrinsics p) limit cs (solve check all_intrinsics p limit cs)
  solve-Found limit = solve-excluded limit []
