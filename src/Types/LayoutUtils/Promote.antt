-- ===== src/Types/LayoutUtils/Promote.antt =====
-- What the promotions make of packed integers.
use shark_platform.Prelude.{
  ℕ, ◌+◌, ◌-◌, ◌*◌, ◌/◌, ◌%◌, ◌<◌, ◌≡◌, refl, sym, ap, ◌∙◌, true, false, arith, List, [], ◌∷◌, map,
  length, All, ◌==◌, if◌then◌else◌, ltb, Bool-cases, inl, inr,
}
use shark_platform.Prelude.Int.{ℤ, pos, negsuc}
use shark_platform.Prelude.Exec.{ok, err, attempt, assertion_error}
use shark_platform.Types.LayoutUtils.{
  uint8, view_uint8_tensor, zip_with, low_nibble, shl, as_int8, sar_4, nibble_pairs,
  signed_nibble_pairs, unsigned, signed, promote_linear_i4_block_to_i8, crumbs,
  promote_linear_i2_block_to_i8, combine, promote_linear_i6_block_to_i8,
}
use shark_platform.Types.LayoutUtils.Bytes.{nibbles_small, low_nibble_mod, crumb_small, combine-sum}
use shark_platform.Types.LayoutUtils.RoundTrip.{Bytes}

-- The number that four bits are in two's complement.
abbrev pub as_int4 : ℕ → ℤ
as_int4 x = if ltb x 8 then pos x else negsuc (15 - x)

sign_high : (x : ℕ) → x < 256 → sar_4 (as_int8 x) ≡ as_int4 (x / 16)
sign_high x h = elim (Bool-cases (ltb x 128)) [
  | inl e ↦ let f : ltb (x / 16) 8 ≡ true = ground (arith, e) in rw (e, f) refl
  | inr e ↦
      let f : ltb (x / 16) 8 ≡ false = ground (arith, e) in rw (e, f) (ap negsuc (omega (arith, h)))
]

sign_low : (x : ℕ) → x < 256 → sar_4 (as_int8 (shl x 4)) ≡ as_int4 (low_nibble x)
sign_low x h =
    let byte : x * 16 % 256 < 256 = omega arith in
    let same : x * 16 % 256 / 16 ≡ x % 16 = omega (arith, h) in
    sign_high (x * 16 % 256) byte ∙ ap as_int4 (same ∙ sym (low_nibble_mod x h))

signed-nibbles : (xs : List ℕ) → Bytes xs → signed_nibble_pairs xs ≡ map as_int4 (nibble_pairs xs)
unfolding signed_nibble_pairs nibble_pairs
signed-nibbles [] b = refl
signed-nibbles (x ∷ xs) (h, b) = rw (sign_low x h, sign_high x h, signed-nibbles xs b) refl

-- A row of bytes with 4-bit integers is promoted, signed and unsigned, and the signed integers are those
-- that the unsigned ones are in two's complement of four bits.
pub promote-signed :
    (xs : List ℕ)
    → Bytes xs
    → (ns : List ℕ) × (promote_linear_i4_block_to_i8 (uint8 xs) false ≡ ok (unsigned ns))
      × (promote_linear_i4_block_to_i8 (uint8 xs) true ≡ ok (signed (map as_int4 ns)))
unfolding promote_linear_i4_block_to_i8 view_uint8_tensor attempt
promote-signed xs b = (nibble_pairs xs, refl, rw (signed-nibbles xs b) refl)

abbrev Below : ℕ → List ℕ → Type 0
Below n = All (λ x. x < n)

Below-nibbles : (xs : List ℕ) → Bytes xs → Below 16 (nibble_pairs xs)
unfolding nibble_pairs
Below-nibbles [] b = tt
Below-nibbles (x ∷ xs) (h, b) =
    let (low, high) = nibbles_small x h in (low, (high, Below-nibbles xs b))

Below-crumbs : (xs : List ℕ) → Bytes xs → Below 4 (crumbs xs)
unfolding crumbs
Below-crumbs [] b = tt
Below-crumbs (x ∷ xs) (h, b) = (
  crumb_small x h,
  (
    crumb_small (x / 4) (omega (arith, h)),
    (
      crumb_small (x / 16) (omega (arith, h)),
      (crumb_small (x / 64) (omega (arith, h)), Below-crumbs xs b),
    ),
  ),
)

length-nibbles : (xs : List ℕ) → length (nibble_pairs xs) ≡ length xs + length xs
unfolding nibble_pairs
length-nibbles [] = refl
length-nibbles (x ∷ xs) = omega (arith, length-nibbles xs)

length-crumbs : (xs : List ℕ) → length (crumbs xs) ≡ 4 * length xs
unfolding crumbs
length-crumbs [] = refl
length-crumbs (x ∷ xs) = omega (arith, length-crumbs xs)

-- Four bits and two above them.
abbrev sixth : ℕ → ℕ → ℕ
sixth low high = low + 16 * high

combined :
    (ls hs : List ℕ)
    → Below 16 ls
    → Below 4 hs
    → (zip_with combine ls hs ≡ zip_with sixth ls hs) × Below 64 (zip_with sixth ls hs)
unfolding zip_with
combined [] hs b c = (refl, tt)
combined (l ∷ ls) [] b c = (refl, tt)
combined (l ∷ ls) (h ∷ hs) (l_small, b) (h_small, c) =
    let (same, below) = combined ls hs b c in
    (rw (combine-sum l h l_small h_small, same) refl, (omega (arith, l_small, h_small), below))

lengths_agree : (a b l h : ℕ) → a ≡ l + l → b ≡ 4 * h → (a == b) ≡ (l == h + h)
lengths_agree a b l h e f = ground (arith, e, f)

-- Two rows of bytes, the one with the low four bits twice as long as the one with the high two bits, give
-- one integer for each pair, the low bits plus 16 times the high ones. Rows of other lengths fail the
-- assertion. The integers are below 64.
promote_i6-sum :
    (hs ls : List ℕ)
    → Bytes hs
    → Bytes ls
    → (promote_linear_i6_block_to_i8 (uint8 hs) (uint8 ls) ≡ (
        if length ls == length hs + length hs
        then ok (zip_with sixth (nibble_pairs ls) (crumbs hs))
        else err assertion_error))
      × Below 64 (zip_with sixth (nibble_pairs ls) (crumbs hs))
unfolding promote_linear_i6_block_to_i8 promote_linear_i2_block_to_i8 view_uint8_tensor attempt
promote_i6-sum hs ls c b =
    let (same, below) =
      combined (nibble_pairs ls) (crumbs hs) (Below-nibbles ls b) (Below-crumbs hs c) in
    let test : (length (nibble_pairs ls) == length (crumbs hs))
        ≡ (length ls == length hs + length hs) =
      lengths_agree _ _ (length ls) (length hs) (length-nibbles ls) (length-crumbs hs) in
    (
      rw (test, same)
          (elim (Bool-cases (length ls == length hs + length hs)) [
            | inl e ↦ rw e refl
            | inr e ↦ rw e refl
          ]),
      below,
    )
