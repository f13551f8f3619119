-- ===== src/Tuner/Solutions.antt =====
-- `generate_solutions` of tuner/tuner/dispatch_constraints.py. The solver is z3's: `check` with `model`
-- answers with an assignment, or with none where the status is not `sat`. The caller in
-- candidate_gen.py takes `limit` solutions and no more.
pub mod Found
pub mod Intrinsic
use shark_platform.Prelude.{
  ℕ, zero, suc, Bool, true, false, ◌&&◌, not, Option, none, some, List, [], ◌∷◌, ◌++◌, ◌==◌,
  if◌then◌else◌, list_eq,
}
use shark_platform.Prelude.Int.{ℤ}
use shark_platform.Prelude.Exec.{Error, Result, ok, err, value_error}
use shark_platform.Tuner.Problem.{TypeClass, is_instance, ProblemSize, MmaIntrinsic}
use shark_platform.Tuner.Constraints.{Vars, Constraint, generate_constraints}

-- The first of all intrinsics with these types and this shape.
unfoldable pub get_mma_attr :
    List MmaIntrinsic → TypeClass → ℕ → ℕ → ℕ → TypeClass → TypeClass → Result MmaIntrinsic
get_mma_attr [] output_type m n k lhs_type rhs_type = err value_error
get_mma_attr (i ∷ is) output_type m n k lhs_type rhs_type =
    let later = get_mma_attr is output_type m n k lhs_type rhs_type in
    if is_instance i.a_type lhs_type
      && (is_instance i.b_type rhs_type
          && (is_instance i.c_type output_type && (m == i.m && (n == i.n && k == i.k))))
    then ok i
    else later

pub record CompilationInfo : Type 0 where
  pub mma_kind : MmaIntrinsic
  pub workgroup : List ℕ
  pub reduction : List ℕ
  pub subgroup_m_count : ℕ
  pub subgroup_n_count : ℕ
  pub workgroup_size : List ℕ
  pub subgroup_size : ℕ
  pub waves_per_eu : ℕ

-- What is built from the values of the variables and the intrinsic.
abbrev pub compilation_info : Vars → MmaIntrinsic → CompilationInfo
compilation_info v attr = record {
  mma_kind = attr;
  workgroup = v.m ∷ v.n ∷ 0 ∷ [];
  reduction = 0 ∷ 0 ∷ v.k ∷ [];
  subgroup_m_count = v.sg_m_cnt;
  subgroup_n_count = v.sg_n_cnt;
  workgroup_size = v.wg_x ∷ v.wg_y ∷ v.wg_z ∷ [];
  subgroup_size = v.subgroup_size;
  waves_per_eu = v.waves_per_eu;
}

-- The values of `all_vars`, in which a further solution has to differ.
abbrev pub all_vars : Vars → List ℕ
all_vars v =
    v.m ∷ v.n ∷ v.k ∷ v.subgroup_size ∷ v.intrinsic_mn ∷ v.intrinsic_k ∷ v.wg_x ∷ v.wg_y ∷ v.wg_z
    ∷ v.sg_m_cnt ∷ v.sg_n_cnt ∷ v.waves_per_eu ∷ []

-- z3.Not(z3.And(list(x == model[x] for x in all_vars)))
unfoldable pub differs : Vars → Constraint
differs model v = not (list_eq (all_vars v) (all_vars model))

-- What a caller gets: the solutions in order, and the exception that ended them.
pub record Solutions : Type 0 where
  pub found : List Vars
  pub infos : List CompilationInfo
  pub failure : Option Error

abbrev pub no_more : Option Error → Solutions
no_more e = record { found = []; infos = []; failure = e }

abbrev pub solution : Vars → MmaIntrinsic → Solutions → Solutions
solution v attr s = record s { found = v ∷ s.found; infos = compilation_info v attr ∷ s.infos }

module _ (check : List Constraint → Option Vars) (all_intrinsics : List MmaIntrinsic)
    (p : ProblemSize) where
  unfoldable pub attr_of : Vars → Result MmaIntrinsic
  unfolding get_mma_attr
  attr_of v =
      get_mma_attr all_intrinsics p.res_type.element_type v.intrinsic_mn v.intrinsic_mn
        v.intrinsic_k p.lhs_type.element_type p.rhs_type.element_type

  -- The loop, for the solutions that the caller still takes.
  unfoldable pub solve : ℕ → List Constraint → Solutions
  solve zero cs = no_more none
  solve (suc limit) cs = elim (check cs) [
    | none ↦ no_more none
    | some v ↦ elim (attr_of v) [
      | err e ↦ no_more (some e)
      | ok attr ↦ solution v attr (solve limit (differs v ∷ cs))
    ]
  ]

  unfoldable pub generate_solutions : ℤ → List MmaIntrinsic → ℕ → Solutions
  generate_solutions num_subgroups mma_intrinsics limit =
      elim (generate_constraints p num_subgroups mma_intrinsics) [
        | err e ↦ no_more (some e)
        | ok cs ↦ solve limit cs
      ]
