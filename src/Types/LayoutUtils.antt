-- ===== src/Types/LayoutUtils.antt =====
-- sharktank/sharktank/types/layout_utils.py: blocks of packed integers of 2, 4 and 6 bits. A tensor is
-- one row of its innermost dimension: the operations treat all rows alike.
pub mod Bytes
pub mod RoundTrip
pub mod Promote
use Prim.Native.Nat.{bit_and, bit_or}
use shark_platform.Prelude.{
  ℕ, zero, suc, ◌+◌, ◌-◌, ◌*◌, ◌/◌, ◌%◌, ◌^◌, Bool, true, false, List, [], ◌∷◌, ◌++◌, map, length,
  take, drop, ◌==◌, if◌then◌else◌, ltb,
}
use shark_platform.Prelude.Int.{ℤ, pos, negsuc}
use shark_platform.Prelude.Exec.{Result, ok, err, attempt, guard, runtime_error, assertion_error}

-- A row with its type.
pub data Row : Type 0 where
  uint8 : List ℕ → Row
  int8 : List ℤ → Row
  other_type : Row

-- The byte of a number in two's complement.
abbrev pub to_byte : ℤ → ℕ
to_byte (pos n) = n % 256
to_byte (negsuc n) = 255 - n % 256

unfoldable pub view_uint8_tensor : Row → Result (List ℕ)
view_uint8_tensor (uint8 xs) = ok xs
view_uint8_tensor (int8 xs) = ok (map to_byte xs)
view_uint8_tensor other_type = err assertion_error

-- x << n and x >> n on bytes
abbrev pub shl : ℕ → ℕ → ℕ
shl x n = x * 2 ^ n % 256

abbrev pub shr : ℕ → ℕ → ℕ
shr x n = x / 2 ^ n

-- x[..., ::2] and x[..., 1::2]
unfoldable pub evens : List ℕ → List ℕ
evens [] = []
evens (x ∷ []) = x ∷ []
evens (x ∷ (y ∷ xs)) = x ∷ evens xs

unfoldable pub odds : List ℕ → List ℕ
odds [] = []
odds (x ∷ []) = []
odds (x ∷ (y ∷ xs)) = y ∷ odds xs

unfoldable pub zip_with : (ℕ → ℕ → ℕ) → List ℕ → List ℕ → List ℕ
zip_with f [] ys = []
zip_with f (x ∷ xs) [] = []
zip_with f (x ∷ xs) (y ∷ ys) = f x y ∷ zip_with f xs ys

-- An operation on two rows, of which one may have one entry for all of the other.
abbrev pub spread : (ℕ → ℕ → ℕ) → List ℕ → List ℕ → Result (List ℕ)
spread f xs (y ∷ []) = ok (map (λ x. f x y) xs)
spread f (x ∷ []) ys = ok (map (f x) ys)
spread f xs ys = err runtime_error

unfoldable pub elementwise : (ℕ → ℕ → ℕ) → List ℕ → List ℕ → Result (List ℕ)
elementwise f xs ys = if length xs == length ys then ok (zip_with f xs ys) else spread f xs ys

-- (high << 4) | low
abbrev pub merge : ℕ → ℕ → ℕ
merge high low = bit_or (shl high 4) low

abbrev pub low_nibble : ℕ → ℕ
low_nibble x = bit_and x 15

abbrev pub high_nibble : ℕ → ℕ
high_nibble x = shr x 4

unfoldable pub linearize_interleaved_i4_block : Row → Result (List ℕ)
linearize_interleaved_i4_block row = attempt (view_uint8_tensor row) (λ xs.
    let low_nibbles = map low_nibble xs in
    let high_nibbles = map high_nibble xs in
    attempt (elementwise merge (odds low_nibbles) (evens low_nibbles)) (λ t1.
      attempt (elementwise merge (odds high_nibbles) (evens high_nibbles)) (λ t2. ok (t1 ++ t2))))

-- torch.cat of unsqueezed rows, flattened: the entries in turn
unfoldable pub weave : List ℕ → List ℕ → List ℕ
weave [] ys = []
weave (x ∷ xs) [] = []
weave (x ∷ xs) (y ∷ ys) = x ∷ y ∷ weave xs ys

-- torch.tensor_split(xs, 2, dim=-1)
abbrev pub first_half : List ℕ → List ℕ
first_half xs = take ((length xs + 1) / 2) xs

abbrev pub second_half : List ℕ → List ℕ
second_half xs = drop ((length xs + 1) / 2) xs

unfoldable pub interleave_linear_i4_block : Row → Result (List ℕ)
interleave_linear_i4_block row = attempt (view_uint8_tensor row) (λ xs.
    let t1 = first_half xs in
    let t2 = second_half xs in
    attempt (guard (length t1 == length t2) assertion_error) (λ _.
      let i0 = zip_with merge (map low_nibble t2) (map low_nibble t1) in
      let i1 = zip_with merge (map high_nibble t2) (map high_nibble t1) in ok (weave i0 i1)))

-- The number that a byte is in two's complement, and its arithmetic shift to the right.
abbrev pub as_int8 : ℕ → ℤ
as_int8 x = if ltb x 128 then pos x else negsuc (255 - x)

abbrev pub sar_4 : ℤ → ℤ
sar_4 (pos n) = pos (n / 16)
sar_4 (negsuc n) = negsuc (n / 16)

-- Two entries for each byte: the low nibble and the high one.
unfoldable pub nibble_pairs : List ℕ → List ℕ
nibble_pairs [] = []
nibble_pairs (x ∷ xs) = low_nibble x ∷ high_nibble x ∷ nibble_pairs xs

unfoldable pub signed_nibble_pairs : List ℕ → List ℤ
signed_nibble_pairs [] = []
signed_nibble_pairs (x ∷ xs) =
    sar_4 (as_int8 (shl x 4)) ∷ sar_4 (as_int8 x) ∷ signed_nibble_pairs xs

-- The rows of bytes, or of signed numbers.
pub data Promoted : Type 0 where
  unsigned : List ℕ → Promoted
  signed : List ℤ → Promoted

unfoldable pub promote_linear_i4_block_to_i8 : Row → Bool → Result Promoted
promote_linear_i4_block_to_i8 row true =
    attempt (view_uint8_tensor row) (λ xs. ok (signed (signed_nibble_pairs xs)))
promote_linear_i4_block_to_i8 row false =
    attempt (view_uint8_tensor row) (λ xs. ok (unsigned (nibble_pairs xs)))

abbrev pub crumb : ℕ → ℕ
crumb x = bit_and x 3

-- Four entries of two bits for each byte.
unfoldable pub crumbs : List ℕ → List ℕ
crumbs [] = []
crumbs (x ∷ xs) = crumb x ∷ crumb (shr x 2) ∷ crumb (shr x 4) ∷ crumb (shr x 6) ∷ crumbs xs

unfoldable pub promote_linear_i2_block_to_i8 : Row → Result (List ℕ)
promote_linear_i2_block_to_i8 row = attempt (view_uint8_tensor row) (λ xs. ok (crumbs xs))

-- i4_data_low | (i2_data_high << 4)
abbrev pub combine : ℕ → ℕ → ℕ
combine low high = bit_or low (shl high 4)

unfoldable pub promote_linear_i6_block_to_i8 : Row → Row → Result (List ℕ)
promote_linear_i6_block_to_i8 i6_data_high i6_data_low =
    attempt (view_uint8_tensor i6_data_low) (λ ls.
      attempt (promote_linear_i2_block_to_i8 i6_data_high) (λ i2_data_high.
        attempt (guard (length (nibble_pairs ls) == length i2_data_high) assertion_error)
          (λ _. ok (zip_with combine (nibble_pairs ls) i2_data_high))))
