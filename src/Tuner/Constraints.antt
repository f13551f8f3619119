-- ===== src/Tuner/Constraints.antt =====
-- tuner/tuner/dispatch_constraints.py: the constraints on the parameters of a dispatch. A constraint of
-- z3 is the test that it makes of an assignment. The variables are natural numbers: the constraints
-- bound every variable from below by a positive number.
pub mod Tiling
use shark_platform.Prelude.{
  ℕ, suc, ◌+◌, ◌*◌, ◌/◌, ◌%◌, Bool, true, false, ◌&&◌, ◌||◌, List, [], ◌∷◌, ◌++◌, leb, ltb, ◌==◌,
  if◌then◌else◌,
}
use shark_platform.Prelude.Int.{ℤ, pos, negsuc}
use shark_platform.Prelude.Exec.{Result, ok, err, assertion_error}
use shark_platform.Tuner.Problem.{
  ProblemSize, MmaIntrinsic, ConvDimInfo, is_conv, get_compatible_mfma_intrinsics,
  from_problem_size,
}

-- The variables that the caller knows, and the four that the constraints introduce.
pub record Vars : Type 0 where
  pub m : ℕ
  pub n : ℕ
  pub k : ℕ
  pub subgroup_size : ℕ
  pub intrinsic_mn : ℕ
  pub intrinsic_k : ℕ
  pub wg_x : ℕ
  pub wg_y : ℕ
  pub wg_z : ℕ
  pub sg_m_cnt : ℕ
  pub sg_n_cnt : ℕ
  pub waves_per_eu : ℕ
  pub wg_threads : ℕ
  pub sg_m_tcnt : ℕ
  pub sg_n_tcnt : ℕ
  pub sg_k_tcnt : ℕ

abbrev pub Constraint : Type 0
Constraint = Vars → Bool

-- z3.Or over the shapes of the compatible intrinsics
unfoldable pub some_shape : List MmaIntrinsic → ℕ → ℕ → ℕ → Bool
some_shape [] m n k = false
some_shape (i ∷ is) m n k = (m == i.m && (n == i.n && k == i.k)) || some_shape is m n k

unfoldable pub get_mfma_intrinsic_constraints : ProblemSize → List MmaIntrinsic → Result Constraint
get_mfma_intrinsic_constraints p intrinsics =
    let shapes = get_compatible_mfma_intrinsics p intrinsics in
    elim shapes [
      | [] ↦ err assertion_error
      | i ∷ is ↦ ok (λ v. some_shape (i ∷ is) v.intrinsic_mn v.intrinsic_mn v.intrinsic_k)
    ]

unfoldable pub get_dispatch_constraints : ProblemSize → Result (List Constraint)
get_dispatch_constraints p =
    if is_conv p.dispatch_kind
    then elim (from_problem_size p) [
      | ok d ↦ ok ((λ v. leb v.m d.ow) ∷ (λ v. leb v.n d.oc) ∷ (λ v. leb v.k d.ic) ∷ [])
      | err e ↦ err e
    ]
    else ok []

unfoldable pub calculate_shared_memory_usage_in_bytes : ProblemSize → ℕ → ℕ → ℕ → ℕ
calculate_shared_memory_usage_in_bytes p m n k =
    m * k * (p.lhs_type.bitwidth / 8) + k * n * (p.rhs_type.bitwidth / 8)

-- With the number of subgroups given, or up to ten of them.
abbrev pub subgroups_constraints : ℤ → List Constraint
subgroups_constraints (pos (suc n)) = (λ v. v.sg_m_cnt * v.sg_n_cnt == suc n) ∷ []
subgroups_constraints other =
    (λ v. leb 1 (v.sg_m_cnt * v.sg_n_cnt)) ∷ (λ v. leb (v.sg_m_cnt * v.sg_n_cnt) 10) ∷ []

-- The constraints on the variables that do not depend on the kind of the dispatch.
unfoldable pub tile_constraints : ProblemSize → List Constraint
tile_constraints p =
    (λ v. leb v.intrinsic_mn v.m)
    ∷ (λ v. leb v.m 512)
    ∷ (λ v. leb v.m p.matmul_size.M)
    ∷ (λ v. leb v.intrinsic_mn v.n)
    ∷ (λ v. leb v.n 512)
    ∷ (λ v. leb v.n p.matmul_size.N)
    ∷ (λ v. p.matmul_size.N % v.n == 0)
    ∷ (λ v. leb v.intrinsic_k v.k)
    ∷ (λ v. leb v.k 512)
    ∷ (λ v. leb v.k p.matmul_size.K)
    ∷ (λ v. p.matmul_size.K % v.k == 0)
    ∷ (λ v. leb 1 v.sg_m_cnt)
    ∷ (λ v. leb v.sg_m_cnt 32)
    ∷ (λ v. leb 1 v.sg_n_cnt)
    ∷ (λ v. leb v.sg_n_cnt 32)
    ∷ (λ v. leb 1 v.sg_m_tcnt)
    ∷ (λ v. leb v.sg_m_tcnt 32)
    ∷ (λ v. leb 1 v.sg_n_tcnt)
    ∷ (λ v. leb v.sg_n_tcnt 32)
    ∷ (λ v. leb 1 v.sg_k_tcnt)
    ∷ (λ v. leb v.sg_k_tcnt 32)
    ∷ (λ v. v.m == v.sg_m_cnt * v.sg_m_tcnt * v.intrinsic_mn)
    ∷ (λ v. v.n == v.sg_n_cnt * v.sg_n_tcnt * v.intrinsic_mn)
    ∷ (λ v. v.k == 1 * v.sg_k_tcnt * v.intrinsic_k)
    ∷ (λ v. v.wg_x == v.subgroup_size * v.sg_n_cnt)
    ∷ (λ v. v.wg_y == v.sg_m_cnt)
    ∷ (λ v. v.wg_z == 1)
    ∷ (λ v. leb v.wg_x v.n || leb v.wg_x v.m)
    ∷ (λ v. v.k % v.intrinsic_mn == 0)
    ∷ (λ v. v.k * v.n % v.wg_threads == 0)
    ∷ (λ v. v.k * v.m % v.wg_threads == 0)
    ∷ []

unfoldable pub generate_constraints : ProblemSize → ℤ → List MmaIntrinsic → Result (List Constraint)
generate_constraints p num_subgroups intrinsics =
    elim (get_mfma_intrinsic_constraints p intrinsics) [
      | err e ↦ err e
      | ok shape ↦ elim (get_dispatch_constraints p) [
        | err e ↦ err e
        | ok dispatch ↦ ok (
            (λ v. v.wg_threads == v.wg_x * v.wg_y * v.wg_z)
              ∷ (λ v. v.subgroup_size == 64)
              ∷ (λ v. leb v.wg_threads 1024)
              ∷ shape
              ∷ tile_constraints p
            ++ (subgroups_constraints num_subgroups
                ++ ((λ v. v.waves_per_eu == 2)
                    ∷ (λ v. leb (calculate_shared_memory_usage_in_bytes p v.m v.n v.k) 65536)
                    ∷ dispatch)))
      ]
    ]

-- Whether an assignment meets all constraints.
unfoldable pub satisfies : List Constraint → Vars → Bool
satisfies [] v = true
satisfies (c ∷ cs) v = c v && satisfies cs v
