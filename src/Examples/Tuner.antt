-- ===== src/Examples/Tuner.antt =====
-- A matrix product of 2048 x 1280 x 1280 with half-precision operands.
use shark_platform.Prelude.{
  ℕ, ◌≡◌, refl, true, false, not, inl, inr, Option, none, some, List, [], ◌∷◌, arith, if◌then◌else◌,
  list_eq, list_eq_iff, Bool-cases, ◌&&◌, ap,
}
use shark_platform.Prelude.Int.{negsuc}
use shark_platform.Prelude.Exec.{Result, ok, err}
use shark_platform.Tuner.Problem.{
  mmt, f16, f32, ProblemSize, MmaIntrinsic, is_compatible, get_compatible_mfma_intrinsics,
}
use shark_platform.Tuner.Constraints.{
  Vars, Constraint, generate_constraints, satisfies, get_mfma_intrinsic_constraints,
  get_dispatch_constraints, tile_constraints, some_shape, calculate_shared_memory_usage_in_bytes,
}
use shark_platform.Tuner.Constraints.Tiling.{Tiling, Convolution, generate_constraints-Tiling}
use shark_platform.Tuner.Collisions.{Hash, unique_candidates}
use shark_platform.Tuner.Collisions.Firsts.{is_seen, firsts, unique_candidates-firsts}
use shark_platform.Tuner.Solutions.{all_vars, differs, attr_of, solve}
use shark_platform.Tuner.Solutions.Found.{Found, excluded, solve-Found}
use shark_platform.Tuner.Solutions.Intrinsic.{attr_of-ok}

abbrev mfma : MmaIntrinsic
mfma = record { a_type = f16; b_type = f16; c_type = f32; m = 16; n = 16; k = 16 }

abbrev product : ProblemSize
product = record {
  matmul_size = record { M = 2048; N = 1280; K = 1280; B = 1 };
  lhs_type = record { shape = 2048 ∷ 1280 ∷ []; element_type = f16; bitwidth = 16 };
  rhs_type = record { shape = 1280 ∷ 1280 ∷ []; element_type = f16; bitwidth = 16 };
  res_type = record { shape = 2048 ∷ 1280 ∷ []; element_type = f32; bitwidth = 32 };
  dispatch_kind = mmt;
}

-- Four subgroups, with two by four tiles of the intrinsic each.
abbrev tiling : Vars
tiling = record {
  m = 64;
  n = 128;
  k = 64;
  subgroup_size = 64;
  intrinsic_mn = 16;
  intrinsic_k = 16;
  wg_x = 128;
  wg_y = 2;
  wg_z = 1;
  sg_m_cnt = 2;
  sg_n_cnt = 2;
  waves_per_eu = 2;
  wg_threads = 256;
  sg_m_tcnt = 2;
  sg_n_tcnt = 4;
  sg_k_tcnt = 4;
}

abbrev from_ok : Result (List Constraint) → List Constraint
from_ok (ok cs) = cs
from_ok (err e) = []

-- The constraints of the product, with any number of subgroups.
abbrev constraints : List Constraint
constraints = from_ok (generate_constraints product (negsuc 0) (mfma ∷ []))

generates : generate_constraints product (negsuc 0) (mfma ∷ []) ≡ ok constraints
unfolding generate_constraints get_mfma_intrinsic_constraints get_dispatch_constraints is_compatible
    get_compatible_mfma_intrinsics
generates = refl

tiling-satisfies : satisfies constraints tiling ≡ true
unfolding generate_constraints get_mfma_intrinsic_constraints get_dispatch_constraints is_compatible
    get_compatible_mfma_intrinsics satisfies tile_constraints some_shape
    calculate_shared_memory_usage_in_bytes
tiling-satisfies = refl

generate_constraints-Tiling_example :
    Tiling product (negsuc 0) (mfma ∷ []) tiling × Convolution product tiling
generate_constraints-Tiling_example =
    generate_constraints-Tiling product (negsuc 0) (mfma ∷ []) tiling constraints generates
      tiling-satisfies

-- A solver of the one problem to have the values of `tiling`.
abbrev this_tiling : List Constraint
this_tiling = (λ v. list_eq (all_vars v) (all_vars tiling)) ∷ []

abbrev check : List Constraint → Option Vars
check cs = if satisfies cs tiling then some tiling else none

check-sat :
    (vs : List Vars) (v : Vars)
    → check (excluded this_tiling vs) ≡ some v
    → satisfies (excluded this_tiling vs) v ≡ true
check-sat vs v e = elim (Bool-cases (satisfies (excluded this_tiling vs) tiling)) [
  | inl h ↦
      let same : some tiling ≡ some v = rw h at e in let found : tiling ≡ v = cc in rw (← found) h
  | inr h ↦ let nothing : none ≡ some v = rw h at e in absurd (cc)
]

same_answer :
    (vs : List Vars) (v : Vars)
    → all_vars v ≡ all_vars tiling
    → satisfies (excluded this_tiling vs) v ≡ satisfies (excluded this_tiling vs) tiling
unfolding satisfies differs
same_answer [] v e = ap (λ x. list_eq x (all_vars tiling) && true) e
same_answer (w ∷ vs) v e =
    let first : differs w v ≡ differs w tiling = ap (λ x. not (list_eq x (all_vars w))) e in
    rw (first, same_answer vs v e) refl

base_answer :
    (vs : List Vars) (v : Vars)
    → satisfies (excluded this_tiling vs) v ≡ true
    → list_eq (all_vars v) (all_vars tiling) ≡ true
unfolding satisfies
base_answer [] v h = ground arith
base_answer (w ∷ vs) v h = base_answer vs v (ground arith)

check-unsat :
    (vs : List Vars) (v : Vars)
    → check (excluded this_tiling vs) ≡ none
    → satisfies (excluded this_tiling vs) v ≡ false
check-unsat vs v e = elim (Bool-cases (satisfies (excluded this_tiling vs) tiling)) [
  | inl h ↦ let same : some tiling ≡ none = rw h at e in absurd (cc)
  | inr h ↦ elim (Bool-cases (satisfies (excluded this_tiling vs) v)) [
    | inl yes_here ↦
        let key = (list_eq_iff _ _).0 (base_answer vs v yes_here) in
        absurd (cc (same_answer vs v key))
    | inr no_here ↦ no_here
  ]
]

solve-Found_example :
    Found
      (attr_of check (mfma ∷ []) product)
      3
      this_tiling
      (solve check (mfma ∷ []) product 3 this_tiling)
solve-Found_example = solve-Found check (mfma ∷ []) product this_tiling check-sat check-unsat 3

attr_of-ok_example : (a : MmaIntrinsic) × (attr_of check (mfma ∷ []) product tiling ≡ ok a)
attr_of-ok_example =
    attr_of-ok check (mfma ∷ []) (mfma ∷ []) product (negsuc 0) constraints refl (λ i h. h)
      generates tiling tiling-satisfies

-- Candidates 1 and 3 are compiled to the same bytes.
abbrev hashes : List (ℕ × Hash)
hashes = (1, 7 ∷ 8 ∷ []) ∷ (2, 9 ∷ []) ∷ (3, 7 ∷ 8 ∷ []) ∷ []

kept_of_three : firsts [] hashes ≡ 1 ∷ 2 ∷ []
unfolding firsts is_seen list_eq
kept_of_three = refl

unique_candidates-firsts_example : unique_candidates hashes ≡ firsts [] hashes
unique_candidates-firsts_example = unique_candidates-firsts hashes
