-- ===== src/Tuner/Problem.antt =====
-- tuner/tuner/common.py: the problem that a dispatch poses. MLIR's element types and the intrinsics of
-- `iree_gpu` are outside: an element type is known by its class and width, and the attributes of an
-- intrinsic are what the compiler's bindings say.
use shark_platform.Prelude.{ℕ, Bool, true, false, ◌&&◌, not, List, [], ◌∷◌, ◌==◌, if◌then◌else◌}
use shark_platform.Prelude.Exec.{Result, ok, err, value_error}

pub data DispatchKind : Type 0 where
  conv mmt contraction batch_mmt batch_matmul broadcast_rhs_mmt : DispatchKind

-- The Python classes of element types.
pub data TypeClass : Type 0 where
  integer f8_e4_m3_fnuz f8_e5_m2_fnuz f16 bf16 f32 : TypeClass

abbrev pub class_value : TypeClass → ℕ
class_value integer = 0
class_value f8_e4_m3_fnuz = 1
class_value f8_e5_m2_fnuz = 2
class_value f16 = 3
class_value bf16 = 4
class_value f32 = 5

-- isinstance(x, type(y)): none of the classes is a subclass of another.
abbrev pub is_instance : TypeClass → TypeClass → Bool
is_instance a b = class_value a == class_value b

pub record ShapedType : Type 0 where
  pub shape : List ℕ
  pub element_type : TypeClass
  pub bitwidth : ℕ

pub record MatmulSize : Type 0 where
  pub M : ℕ
  pub N : ℕ
  pub K : ℕ
  pub B : ℕ

pub record ProblemSize : Type 0 where
  pub matmul_size : MatmulSize
  pub lhs_type : ShapedType
  pub rhs_type : ShapedType
  pub res_type : ShapedType
  pub dispatch_kind : DispatchKind

-- An intrinsic with the element types and the shape of its `MMAAttr`.
pub record MmaIntrinsic : Type 0 where
  pub a_type : TypeClass
  pub b_type : TypeClass
  pub c_type : TypeClass
  pub m : ℕ
  pub n : ℕ
  pub k : ℕ

abbrev pub is_batch_matmul : DispatchKind → Bool
is_batch_matmul batch_matmul = true
is_batch_matmul kind = false

abbrev pub is_conv : DispatchKind → Bool
is_conv conv = true
is_conv kind = false

-- The operands' types do not count for a `batch_matmul`.
unfoldable pub is_compatible : ProblemSize → MmaIntrinsic → Bool
is_compatible p i =
    if not (is_instance p.res_type.element_type i.c_type)
    then false
    else if not (is_batch_matmul p.dispatch_kind)
    then is_instance p.lhs_type.element_type i.a_type
      && is_instance p.rhs_type.element_type i.b_type
    else true

unfoldable pub get_compatible_mfma_intrinsics : ProblemSize → List MmaIntrinsic → List MmaIntrinsic
get_compatible_mfma_intrinsics p [] = []
get_compatible_mfma_intrinsics p (i ∷ is) =
    let rest = get_compatible_mfma_intrinsics p is in if is_compatible p i then i ∷ rest else rest

pub record ConvDimInfo : Type 0 where
  pub n : ℕ
  pub oh : ℕ
  pub ow : ℕ
  pub oc : ℕ
  pub fh : ℕ
  pub fw : ℕ
  pub ic : ℕ

-- Unpacking a shape of another rank than 4 raises.
unfoldable pub from_rhs_res : List ℕ → List ℕ → Result ConvDimInfo
from_rhs_res (fh ∷ (fw ∷ (ic ∷ (filters ∷ [])))) (n ∷ (oh ∷ (ow ∷ (oc ∷ [])))) =
    ok (record { n = n; oh = oh; ow = ow; oc = oc; fh = fh; fw = fw; ic = ic })
from_rhs_res rhs res = err value_error

unfoldable pub from_problem_size : ProblemSize → Result ConvDimInfo
unfolding from_rhs_res
from_problem_size p = from_rhs_res p.rhs_type.shape p.res_type.shape
