-- ===== src/Examples/Types.antt =====
-- The parameters of a model with three tensors: a.b, a.c and a.bd.
use shark_platform.Prelude.{
  ℕ, ◌+◌, ◌≡◌, refl, inr, true, false, some, list_eq, List, [], ◌∷◌, arith, map,
}
use shark_platform.Prelude.Exec.{ok, index_error, attempt}
use shark_platform.Types.Names.{Text, split}
use shark_platform.Types.LayoutUtils.{
  uint8, view_uint8_tensor, evens, odds, zip_with, elementwise, linearize_interleaved_i4_block,
  interleave_linear_i4_block, promote_linear_i4_block_to_i8, unsigned, signed,
}
use shark_platform.Types.LayoutUtils.RoundTrip.{Bytes, interleave-linearize}
use shark_platform.Types.LayoutUtils.Promote.{as_int4, promote-signed}
use shark_platform.Types.Theta.Transform.{one_each, mapped_item, transform-mapped}
use shark_platform.Types.Theta.Paths.{leaf_at}
use shark_platform.Types.Theta.{
  transform, Tensor, tensor, Tree, empty, entry, item, flat_to_nested_dict, flatten, get_tensor,
}
use shark_platform.Types.Theta.Nesting.{Apart}
use shark_platform.Types.Theta.Flat.{Flat}
use shark_platform.Types.Theta.RoundTrip.{Started, flatten-flat_to_nested_dict}
use shark_platform.Types.Theta.Lookup.{get_tensor-flat_to_nested_dict}
use shark_platform.Types.Theta.Pop.{Popped, pop-Popped}

abbrev ab : Text
ab = 97 ∷ 46 ∷ 98 ∷ []

abbrev ac : Text
ac = 97 ∷ 46 ∷ 99 ∷ []

abbrev abd : Text
abd = 97 ∷ 46 ∷ 98 ∷ 100 ∷ []

abbrev weight : ℕ → Text → Tensor
weight i name = record { name = name; object = i }

abbrev weights : Tree
weights =
    entry ab (tensor (weight 1 ab))
      (entry ac (tensor (weight 2 ac)) (entry abd (tensor (weight 3 abd)) empty))

weights-Flat : Flat weights
unfolding split Apart list_eq
weights-Flat = (tt, ((inr refl, (inr refl, tt)), (tt, ((inr refl, tt), (tt, (tt, tt))))))

weights-Started : Started weights
weights-Started = (refl, (refl, (refl, tt)))

flatten-flat_to_nested_dict_example :
    (t : Tree) × (flat_to_nested_dict weights ≡ ok t)
    × ((name : Text) → item (flatten t) name ≡ item weights name)
flatten-flat_to_nested_dict_example =
    flatten-flat_to_nested_dict weights weights-Flat weights-Started

pop-Popped_example : Popped weights (ab ∷ [])
pop-Popped_example = pop-Popped weights (ab ∷ []) weights-Flat weights-Started

weights-ac : item weights ac ≡ some (tensor (weight 2 ac))
unfolding item list_eq
weights-ac = refl

get_tensor-flat_to_nested_dict_example :
    (t : Tree) × (flat_to_nested_dict weights ≡ ok t)
    × (get_tensor index_error t (ac ∷ []) ≡ ok (tensor (weight 2 ac)))
get_tensor-flat_to_nested_dict_example =
    get_tensor-flat_to_nested_dict index_error weights ac (weight 2 ac) weights-Flat weights-ac

-- The row of bytes in the documentation of linearize_interleaved_i4_block.
abbrev row : List ℕ
row = 0x80 ∷ 0x91 ∷ 0xA2 ∷ 0xB3 ∷ 0xC4 ∷ 0xD5 ∷ 0xE6 ∷ 0xF7 ∷ []

row-Bytes : Bytes row
row-Bytes = (
  omega arith,
  (
    omega arith,
    (omega arith, (omega arith, (omega arith, (omega arith, (omega arith, (omega arith, tt)))))),
  ),
)

linearized :
    linearize_interleaved_i4_block (uint8 row)
    ≡ ok (0x10 ∷ 0x32 ∷ 0x54 ∷ 0x76 ∷ 0x98 ∷ 0xBA ∷ 0xDC ∷ 0xFE ∷ [])
unfolding linearize_interleaved_i4_block view_uint8_tensor evens odds zip_with elementwise attempt
linearized = refl

interleave-linearize_example :
    (attempt
        (linearize_interleaved_i4_block (uint8 row))
        (λ ys. interleave_linear_i4_block (uint8 ys))
      ≡ ok row)
    × (attempt
          (interleave_linear_i4_block (uint8 row))
          (λ ys. linearize_interleaved_i4_block (uint8 ys))
        ≡ ok row)
interleave-linearize_example = interleave-linearize 4 row refl row-Bytes

promote-signed_example :
    (ns : List ℕ) × (promote_linear_i4_block_to_i8 (uint8 row) false ≡ ok (unsigned ns))
    × (promote_linear_i4_block_to_i8 (uint8 row) true ≡ ok (signed (map as_int4 ns)))
promote-signed_example = promote-signed row row-Bytes

-- A move to another device makes a new object with the name of the old one.
abbrev moved : Tensor → Tensor
moved x = record x { object = x.object + 100 }

transform-mapped_example :
    (t t' : Tree) × (flat_to_nested_dict weights ≡ ok t)
    × (transform (one_each moved) t ≡ ok t')
    × ((name : Text)
        → leaf_at t' (split name).0 (split name).1 ≡ mapped_item moved (item weights name))
transform-mapped_example =
    transform-mapped moved (λ x. refl) weights weights-Flat weights-Started
      (refl, (refl, (refl, tt)))
