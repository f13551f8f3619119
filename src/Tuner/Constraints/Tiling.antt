-- ===== src/Tuner/Constraints/Tiling.antt =====
-- What an assignment that meets the constraints is: a tiling of the problem onto a workgroup.
use mathlib.Core.Path.{subst}
use shark_platform.Prelude.{
  ℕ, zero, suc, ◌+◌, ◌*◌, ◌/◌, ◌%◌, ◌≤◌, ◌≡◌, refl, sym, ap, ◌∙◌, ==_iff, true, false, ◌&&◌, ◌||◌,
  List, [], ◌∷◌, ◌++◌, arith, leb, ◌==◌, All, ◌⊎◌, inl, inr, Bool-cases,
}
use shark_platform.Prelude.Int.{ℤ, pos, negsuc}
use shark_platform.Prelude.Exec.{Result-cases, Error, Result, ok, err, assertion_error}
use shark_platform.Tuner.Problem.{
  ProblemSize, MmaIntrinsic, ConvDimInfo, is_compatible, is_conv, from_problem_size,
  get_compatible_mfma_intrinsics,
}
use shark_platform.Tuner.Constraints.{
  Vars, Constraint, some_shape, get_mfma_intrinsic_constraints, get_dispatch_constraints,
  calculate_shared_memory_usage_in_bytes, subgroups_constraints, tile_constraints,
  generate_constraints, satisfies,
}

leb→le : (a b : ℕ) → leb a b ≡ true → a ≤ b
leb→le a b h = ground arith

-- One of the intrinsics is compatible with the problem and has this shape.
abbrev pub Offers : ProblemSize → List MmaIntrinsic → ℕ → ℕ → Type 0
Offers p [] mn k = ⊥
Offers p (i ∷ is) mn k =
    ((is_compatible p i ≡ true) × (mn ≡ i.m) × (mn ≡ i.n) × (k ≡ i.k)) ⊎ Offers p is mn k

-- The number of subgroups is the one asked for, or at most ten.
abbrev pub Subgroups : ℤ → ℕ → Type 0
Subgroups (pos (suc n)) count = count ≡ suc n
Subgroups other count = (1 ≤ count) × (count ≤ 10)

abbrev pub Met : Vars → List Constraint → Type 0
Met v = All (λ c. c v ≡ true)

satisfies-Met : (cs : List Constraint) (v : Vars) → satisfies cs v ≡ true → Met v cs
unfolding satisfies
satisfies-Met [] v h = tt
satisfies-Met (c ∷ cs) v h = (ground arith, satisfies-Met cs v (ground arith))

Met-append : (v : Vars) (cs ds : List Constraint) → Met v (cs ++ ds) → Met v cs × Met v ds
Met-append v [] ds h = (tt, h)
Met-append v (c ∷ cs) ds h = let (a, b) = Met-append v cs ds h.1 in ((h.0, a), b)

some_shape-Offers :
    (p : ProblemSize) (is : List MmaIntrinsic) (mn k : ℕ)
    → some_shape (get_compatible_mfma_intrinsics p is) mn mn k ≡ true
    → Offers p is mn k
unfolding some_shape get_compatible_mfma_intrinsics
some_shape-Offers p [] mn k h = cc
some_shape-Offers p (i ∷ is) mn k h = elim (Bool-cases (is_compatible p i)) [
  | inr other ↦ inr (some_shape-Offers p is mn k (rw (other, get_compatible_mfma_intrinsics) at h))
  | inl fits ↦
      let tested : ((mn == i.m && (mn == i.n && k == i.k))
            || some_shape (get_compatible_mfma_intrinsics p is) mn mn k)
          ≡ true =
        rw (fits, get_compatible_mfma_intrinsics) at h in
      elim (Bool-cases (mn == i.m && (mn == i.n && k == i.k))) [
        | inl same ↦ inl (fits, ground arith, ground arith, ground arith)
        | inr other ↦ inr (some_shape-Offers p is mn k (rw other at tested))
      ]
]

Subgroups-Met :
    (num : ℤ) (v : Vars)
    → Met v (subgroups_constraints num)
    → Subgroups num (v.sg_m_cnt * v.sg_n_cnt)
Subgroups-Met (pos zero) v h = ground arith
Subgroups-Met (pos (suc n)) v h = ground arith
Subgroups-Met (negsuc n) v h = ground arith

-- The workgroup, the tiles and the memory of an assignment.
pub record Tiling (p : ProblemSize) (num_subgroups : ℤ) (intrinsics : List MmaIntrinsic) (v : Vars)
    : Type 0 where
  pub shape : Offers p intrinsics v.intrinsic_mn v.intrinsic_k
  pub subgroups : Subgroups num_subgroups (v.sg_m_cnt * v.sg_n_cnt)
  pub threads : v.wg_threads ≡ 64 * (v.sg_m_cnt * v.sg_n_cnt)
  pub threads_bound : v.wg_threads ≤ 1024
  pub tile_m : v.m ≡ v.sg_m_cnt * v.sg_m_tcnt * v.intrinsic_mn
  pub tile_n : v.n ≡ v.sg_n_cnt * v.sg_n_tcnt * v.intrinsic_mn
  pub tile_k : v.k ≡ v.sg_k_tcnt * v.intrinsic_k
  pub divides_n : p.matmul_size.N % v.n ≡ 0
  pub divides_k : p.matmul_size.K % v.k ≡ 0
  pub within_m : v.m ≤ p.matmul_size.M
  pub loads : (v.k * v.n % v.wg_threads ≡ 0) × (v.k * v.m % v.wg_threads ≡ 0)
  pub memory : v.m * v.k * (p.lhs_type.bitwidth / 8) + v.k * v.n * (p.rhs_type.bitwidth / 8) ≤ 65536

product : (x y z sm sn : ℕ) → x ≡ 64 * sn → y ≡ sm → z ≡ 1 → x * y * z ≡ 64 * (sm * sn)
product x y z sm sn e f g = rw (e, f, g) (grind arith)

module _ (p : ProblemSize) (num : ℤ) (intrinsics : List MmaIntrinsic) (v : Vars) where
  -- What all constraints say together, in the order of the source.
  made-Tiling :
      Offers p intrinsics v.intrinsic_mn v.intrinsic_k
      → v.wg_threads ≡ v.wg_x * v.wg_y * v.wg_z
      → v.subgroup_size ≡ 64
      → v.wg_threads ≤ 1024
      → Met v (tile_constraints p)
      → Met v (subgroups_constraints num)
      → calculate_shared_memory_usage_in_bytes p v.m v.n v.k ≤ 65536
      → Tiling p num intrinsics v
  unfolding tile_constraints calculate_shared_memory_usage_in_bytes
  made-Tiling shape threads size bound
        (
          m_ge,
          (
            m_512,
            (
              m_le,
              (
                n_ge,
                (
                  n_512,
                  (
                    n_le,
                    (
                      n_div,
                      (
                        k_ge,
                        (
                          k_512,
                          (
                            k_le,
                            (
                              k_div,
                              (
                                c1,
                                (
                                  c2,
                                  (
                                    c3,
                                    (
                                      c4,
                                      (
                                        t1,
                                        (
                                          t2,
                                          (
                                            t3,
                                            (
                                              t4,
                                              (
                                                t5,
                                                (
                                                  t6,
                                                  (
                                                    m_eq,
                                                    (
                                                      n_eq,
                                                      (
                                                        k_eq,
                                                        (
                                                          x_eq,
                                                          (
                                                            y_eq,
                                                            (
                                                            z_eq,
                                                            (x_le, (k_mn, (load_n, (load_m, end)))),
                                                            ),
                                                          ),
                                                        ),
                                                      ),
                                                    ),
                                                  ),
                                                ),
                                              ),
                                            ),
                                          ),
                                        ),
                                      ),
                                    ),
                                  ),
                                ),
                              ),
                            ),
                          ),
                        ),
                      ),
                    ),
                  ),
                ),
              ),
            ),
          ),
        )
        subgroups memory =
      record {
        shape = shape;
        subgroups = Subgroups-Met num v subgroups;
        threads =
            threads
            ∙ product v.wg_x v.wg_y v.wg_z v.sg_m_cnt v.sg_n_cnt (rw (← size) ((==_iff _ _).0 x_eq))
                ((==_iff _ _).0 y_eq) ((==_iff _ _).0 z_eq);
        threads_bound = bound;
        tile_m = (==_iff _ _).0 m_eq;
        tile_n = (==_iff _ _).0 n_eq;
        tile_k = (==_iff _ _).0 k_eq ∙ ap (λ t. t * v.intrinsic_k) (omega arith);
        divides_n = (==_iff _ _).0 n_div;
        divides_k = (==_iff _ _).0 k_div;
        within_m = leb→le v.m p.matmul_size.M m_le;
        loads = ((==_iff _ _).0 load_n, (==_iff _ _).0 load_m);
        memory = memory;
      }

  -- The list of constraints, when none of its parts raises.
  all_constraints : Constraint → List Constraint → List Constraint
  all_constraints shape dispatch =
      (λ v. v.wg_threads == v.wg_x * v.wg_y * v.wg_z)
        ∷ (λ v. v.subgroup_size == 64)
        ∷ (λ v. leb v.wg_threads 1024)
        ∷ shape
        ∷ tile_constraints p
      ++ (subgroups_constraints num
          ++ ((λ v. v.waves_per_eu == 2)
              ∷ (λ v. leb (calculate_shared_memory_usage_in_bytes p v.m v.n v.k) 65536)
              ∷ dispatch))

  all_constraints-Tiling :
      (shape : Constraint) (dispatch : List Constraint)
      → (shape v ≡ true → Offers p intrinsics v.intrinsic_mn v.intrinsic_k)
      → Met v (all_constraints shape dispatch)
      → Tiling p num intrinsics v
  unfolding all_constraints
  all_constraints-Tiling shape dispatch offers (threads, (size, (bound, (shaped, rest)))) =
      let (tiles, more) = Met-append v (tile_constraints p) _ rest in
      let (subgroups, last) = Met-append v (subgroups_constraints num) _ more in
      made-Tiling (offers shaped) ((==_iff _ _).0 threads) ((==_iff _ _).0 size) (leb→le _ _ bound)
        tiles subgroups (leb→le _ _ last.1.0)

  last-Met :
      (shape : Constraint) (dispatch : List Constraint)
      → Met v (all_constraints shape dispatch)
      → Met v dispatch
  unfolding all_constraints
  last-Met shape dispatch (threads, (size, (bound, (shaped, rest)))) =
      let (tiles, more) = Met-append v (tile_constraints p) _ rest in
      let (subgroups, last) = Met-append v (subgroups_constraints num) _ more in last.1.1

-- The tiles of a convolution are within the output and the channels.
abbrev pub Convolution : ProblemSize → Vars → Type 0
Convolution p v =
    (is_conv p.dispatch_kind ≡ false)
    ⊎ ((d : ConvDimInfo) × (from_problem_size p ≡ ok d)
        × (v.m ≤ d.ow)
        × (v.n ≤ d.oc)
        × (v.k ≤ d.ic))

abbrev ok_or {ℓ} : {A : Type ℓ} → A → Result A → A
ok_or d (ok a) = a
ok_or d (err e) = d

shape-Offers :
    (p : ProblemSize) (intrinsics compatible : List MmaIntrinsic) (v : Vars) (shape : Constraint)
    → get_compatible_mfma_intrinsics p intrinsics ≡ compatible
    → get_mfma_intrinsic_constraints p intrinsics ≡ ok shape
    → shape v ≡ true
    → Offers p intrinsics v.intrinsic_mn v.intrinsic_k
unfolding get_mfma_intrinsic_constraints
shape-Offers p intrinsics [] v shape c g h =
    let run : ◌≡◌ {A = Result Constraint} (err assertion_error) (ok shape) =
      rw (c, get_mfma_intrinsic_constraints) at g in
    cc
shape-Offers p intrinsics (i ∷ is) v shape c g h =
    let run : ◌≡◌ {A = Result Constraint}
        (ok (λ w. some_shape (i ∷ is) w.intrinsic_mn w.intrinsic_mn w.intrinsic_k)) (ok shape) =
      rw (c, get_mfma_intrinsic_constraints) at g in
    some_shape-Offers p intrinsics v.intrinsic_mn v.intrinsic_k
      (rw c (ap (λ r. ok_or shape r v) run ∙ h))

dispatch-Convolution :
    (p : ProblemSize) (v : Vars) (dispatch : List Constraint)
    → get_dispatch_constraints p ≡ ok dispatch
    → Met v dispatch
    → Convolution p v
unfolding get_dispatch_constraints
dispatch-Convolution p v dispatch g h = elim (Bool-cases (is_conv p.dispatch_kind)) [
  | inr other ↦ inl other
  | inl convolution ↦ elim (Result-cases (from_problem_size p)) [
    | inr (e, r) ↦
        let run : ◌≡◌ {A = Result (List Constraint)} (err e) (ok dispatch) =
          rw (convolution, r, get_dispatch_constraints) at g in
        absurd (cc)
    | inl (d, r) ↦
        let run : ◌≡◌ {A = Result (List Constraint)}
            (ok ((λ w. leb w.m d.ow) ∷ (λ w. leb w.n d.oc) ∷ (λ w. leb w.k d.ic) ∷ []))
            (ok dispatch) =
          rw (convolution, r, get_dispatch_constraints) at g in
        let met : Met v ((λ w. leb w.m d.ow) ∷ (λ w. leb w.n d.oc) ∷ (λ w. leb w.k d.ic) ∷ []) =
          subst (Met v) (sym (ap (ok_or dispatch) run)) h in
        inr (d, r, leb→le _ _ met.0, leb→le _ _ met.1.0, leb→le _ _ met.1.1.0)
  ]
]

module _ (p : ProblemSize) (num : ℤ) (intrinsics : List MmaIntrinsic) (v : Vars)
    (cs : List Constraint) where
  generated :
      (shape : Constraint) (dispatch : List Constraint)
      → get_mfma_intrinsic_constraints p intrinsics ≡ ok shape
      → get_dispatch_constraints p ≡ ok dispatch
      → generate_constraints p num intrinsics ≡ ok cs
      → Met v cs
      → Tiling p num intrinsics v × Convolution p v
  unfolding generate_constraints all_constraints
  generated shape dispatch g d run h =
      let e : ◌≡◌ {A = Result (List Constraint)}
          (ok (all_constraints p num intrinsics v shape dispatch)) (ok cs) =
        rw (g, d, generate_constraints) at run in
      let met : Met v (all_constraints p num intrinsics v shape dispatch) =
        subst (Met v) (sym (ap (ok_or cs) e)) h in
      (
        all_constraints-Tiling p num intrinsics v shape dispatch
            (shape-Offers p intrinsics _ v shape refl g) met,
        dispatch-Convolution p v dispatch d (last-Met p num intrinsics v shape dispatch met),
      )

  -- An assignment that meets the constraints of a problem tiles it: its intrinsic is one of those that
  -- are compatible with the problem; the workgroup has 64 threads for each subgroup and no more than
  -- 1024; the subgroups are as many as asked for, or at most ten; the tiles are made of whole
  -- intrinsics for each subgroup, divide N and K, and are loaded by all threads evenly; both operands'
  -- tiles fit in 65536 bytes; and the tiles of a convolution are within its output and channels.
  pub generate_constraints-Tiling :
      generate_constraints p num intrinsics ≡ ok cs
      → satisfies cs v ≡ true
      → Tiling p num intrinsics v × Convolution p v
  unfolding generate_constraints
  generate_constraints-Tiling run h =
      elim (Result-cases (get_mfma_intrinsic_constraints p intrinsics)) [
        | inr (e, g) ↦ absurd (shape_raised e g)
        | inl (shape, g) ↦ elim (Result-cases (get_dispatch_constraints p)) [
          | inr (e, d) ↦ absurd (dispatch_raised e shape g d)
          | inl (dispatch, d) ↦ generated shape dispatch g d run (satisfies-Met cs v h)
        ]
      ]
    where
      shape_raised : (e : Error) → get_mfma_intrinsic_constraints p intrinsics ≡ err e → ⊥
      shape_raised e g =
          let x : ◌≡◌ {A = Result (List Constraint)} (err e) (ok cs) =
            rw (g, generate_constraints) at run in
          cc

      dispatch_raised :
          (e : Error) (shape : Constraint)
          → get_mfma_intrinsic_constraints p intrinsics ≡ ok shape
          → get_dispatch_constraints p ≡ err e
          → ⊥
      dispatch_raised e shape g d =
          let x : ◌≡◌ {A = Result (List Constraint)} (err e) (ok cs) =
            rw (g, d, generate_constraints) at run in
          cc
