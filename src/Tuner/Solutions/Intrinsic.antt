-- ===== src/Tuner/Solutions/Intrinsic.antt =====
-- When a solution has an intrinsic: the loop and the search agree on what is compatible.
use shark_platform.Prelude.{
  ℕ, ◌≡◌, refl, Bool, true, false, ◌&&◌, not, Option, List, [], ◌∷◌, arith, ==_iff, ◌==◌, ◌⊎◌, inl,
  inr, Bool-cases, if◌then◌else◌,
}
use shark_platform.Prelude.Int.{ℤ}
use shark_platform.Prelude.Exec.{ok}
use shark_platform.Tuner.Problem.{
  ProblemSize, MmaIntrinsic, TypeClass, class_value, is_instance, is_compatible, is_batch_matmul,
}
use shark_platform.Tuner.Constraints.{Vars, Constraint, satisfies, generate_constraints}
use shark_platform.Tuner.Constraints.Tiling.{Offers, generate_constraints-Tiling}
use shark_platform.Tuner.Solutions.{get_mma_attr, attr_of}

-- Every intrinsic of a list is one of all.
abbrev pub Known : List MmaIntrinsic → MmaIntrinsic → Type 0
Known [] i = ⊥
Known (j ∷ js) i = (i ≡ j) ⊎ Known js i

-- The intrinsic that `get_mma_attr` looks for.
abbrev wanted : TypeClass → ℕ → ℕ → ℕ → TypeClass → TypeClass → MmaIntrinsic → Bool
wanted output_type m n k lhs_type rhs_type i =
    is_instance i.a_type lhs_type
    && (is_instance i.b_type rhs_type
        && (is_instance i.c_type output_type && (m == i.m && (n == i.n && k == i.k))))

clash : (f : MmaIntrinsic → Bool) {i j : MmaIntrinsic} → i ≡ j → f i ≡ true → f j ≡ false → ⊥
clash f e h k = cc

get_mma_attr-Known :
    (is : List MmaIntrinsic) (output_type : TypeClass) (m n k : ℕ) (lhs_type rhs_type : TypeClass)
    (i : MmaIntrinsic)
    → Known is i
    → wanted output_type m n k lhs_type rhs_type i ≡ true
    → (a : MmaIntrinsic) × (get_mma_attr is output_type m n k lhs_type rhs_type ≡ ok a)
unfolding get_mma_attr
get_mma_attr-Known [] output_type m n k lhs_type rhs_type i h w = absurd h
get_mma_attr-Known (j ∷ js) output_type m n k lhs_type rhs_type i h w =
    elim (Bool-cases (wanted output_type m n k lhs_type rhs_type j)) [
      | inl yes_here ↦ (j, rw yes_here refl)
      | inr not_here ↦ elim h [
        | inl same ↦ absurd (clash (wanted output_type m n k lhs_type rhs_type) same w not_here)
        | inr later ↦
            let (a, run) = get_mma_attr-Known js output_type m n k lhs_type rhs_type i later w in
            (a, rw not_here run)
      ]
    ]

-- The test of `is_compatible` is the test of `get_mma_attr`, on the numbers of the classes.
tests_agree :
    (a b c x y z : ℕ)
    → (if not (z == c) then false else if not false then x == a && y == b else true) ≡ true
    → (a ≡ x) × (b ≡ y) × (c ≡ z)
tests_agree a b c x y z h = ground arith

all_tests :
    (a b c x y z mn k m n l : ℕ)
    → (a ≡ x) × (b ≡ y) × (c ≡ z)
    → mn ≡ m
    → mn ≡ n
    → k ≡ l
    → (a == x && (b == y && (c == z && (mn == m && (mn == n && k == l))))) ≡ true
all_tests a b c x y z mn k m n l h e f g =
    rw
      (
        (==_iff a x).1 h.0,
        (==_iff b y).1 h.1,
        (==_iff c z).1 h.2,
        (==_iff mn m).1 e,
        (==_iff mn n).1 f,
        (==_iff k l).1 g,
      )
      refl

Offers-wanted :
    (p : ProblemSize) (intrinsics : List MmaIntrinsic) (mn k : ℕ)
    → is_batch_matmul p.dispatch_kind ≡ false
    → Offers p intrinsics mn k
    → (i : MmaIntrinsic) × Known intrinsics i
      × (wanted p.res_type.element_type mn mn k p.lhs_type.element_type p.rhs_type.element_type i
          ≡ true)
unfolding is_compatible
Offers-wanted p [] mn k b h = absurd h
Offers-wanted p (i ∷ is) mn k b (inr h) =
    let (j, known, w) = Offers-wanted p is mn k b h in (j, inr known, w)
Offers-wanted p (i ∷ is) mn k b (inl h) =
    let tested : (if not (class_value p.res_type.element_type == class_value i.c_type)
          then false
          else if not false
          then class_value p.lhs_type.element_type == class_value i.a_type
            && class_value p.rhs_type.element_type == class_value i.b_type
          else true)
        ≡ true =
      rw (b, is_compatible) at h.0 in
    (
      i,
      inl refl,
      all_tests (class_value i.a_type) (class_value i.b_type) (class_value i.c_type)
          (class_value p.lhs_type.element_type) (class_value p.rhs_type.element_type)
          (class_value p.res_type.element_type) mn k i.m i.n i.k
          (tests_agree (class_value i.a_type) (class_value i.b_type) (class_value i.c_type)
            (class_value p.lhs_type.element_type) (class_value p.rhs_type.element_type)
            (class_value p.res_type.element_type) tested)
          h.1 h.2 h.3,
    )

-- Where the dispatch is no `batch_matmul` and the intrinsics of the search are among all, an assignment
-- with the shape of a compatible intrinsic has an intrinsic: the loop raises nothing.
pub attr_of-ok :
    (check : List Constraint → Option Vars) (all_intrinsics mma_intrinsics : List MmaIntrinsic)
    (p : ProblemSize) (num : ℤ) (cs : List Constraint)
    → is_batch_matmul p.dispatch_kind ≡ false
    → ((i : MmaIntrinsic) → Known mma_intrinsics i → Known all_intrinsics i)
    → generate_constraints p num mma_intrinsics ≡ ok cs
    → (v : Vars) → satisfies cs v ≡ true
    → (a : MmaIntrinsic) × (attr_of check all_intrinsics p v ≡ ok a)
unfolding attr_of
attr_of-ok check all_intrinsics mma_intrinsics p num cs kind known run v h =
    let (tiling, dims) = generate_constraints-Tiling p num mma_intrinsics v cs run h in
    let (i, there, w) =
      Offers-wanted p mma_intrinsics v.intrinsic_mn v.intrinsic_k kind tiling.shape in
    get_mma_attr-Known all_intrinsics p.res_type.element_type v.intrinsic_mn v.intrinsic_mn
      v.intrinsic_k p.lhs_type.element_type p.rhs_type.element_type i (known i there) w
