-- ===== src/Types/LayoutUtils/Bytes.antt =====
-- The two nibbles of a byte, checked for every byte.
use shark_platform.Prelude.{
  ℕ, zero, suc, ◌+◌, ◌*◌, ◌/◌, ◌%◌, ◌<◌, ◌≡◌, refl, Bool, true, ◌&&◌, arith, ◌==◌, ==_iff,
}
use shark_platform.Types.LayoutUtils.{merge, low_nibble, high_nibble, combine, crumb}

unfoldable holds_below : ℕ → (ℕ → Bool) → Bool
holds_below zero p = true
holds_below (suc n) p = p n && holds_below n p

checked : (n : ℕ) (p : ℕ → Bool) (x : ℕ) → holds_below n p ≡ true → x < n → p x ≡ true
unfolding holds_below
checked zero p x h below = absurd (omega arith)
checked (suc n) p x h below = ground (arith, checked n p x)

nibbles_of_byte : holds_below 256 (λ x. merge (high_nibble x) (low_nibble x) == x) ≡ true
unfolding holds_below
nibbles_of_byte = refl

-- A byte is made of its two nibbles.
pub merge-nibbles : (x : ℕ) → x < 256 → merge (high_nibble x) (low_nibble x) ≡ x
merge-nibbles x h = (==_iff _ x).0 (checked 256 _ x nibbles_of_byte h)

byte_of_nibbles :
    holds_below 256 (λ x.
      low_nibble (merge (x / 16) (x % 16)) == x % 16
      && (high_nibble (merge (x / 16) (x % 16)) == x / 16))
    ≡ true
unfolding holds_below
byte_of_nibbles = refl

both : (a b x y : ℕ) → ((a == x) && (b == y)) ≡ true → (a ≡ x) × (b ≡ y)
both a b x y h = ground arith

apart :
    (x : ℕ)
    → x < 256
    → (low_nibble (merge (x / 16) (x % 16)) ≡ x % 16)
      × (high_nibble (merge (x / 16) (x % 16)) ≡ x / 16)
apart x h =
    both (low_nibble (merge (x / 16) (x % 16))) (high_nibble (merge (x / 16) (x % 16))) (x % 16)
      (x / 16) (checked 256 _ x byte_of_nibbles h)

-- A byte that is made of two nibbles has these nibbles.
pub nibbles-merge :
    (a b : ℕ) → a < 16 → b < 16 → (low_nibble (merge a b) ≡ b) × (high_nibble (merge a b) ≡ a)
nibbles-merge a b h g =
    let x : 16 * a + b < 256 = omega (arith, h, g) in
    let high : (16 * a + b) / 16 ≡ a = omega (arith, h, g) in
    let low : (16 * a + b) % 16 ≡ b = omega (arith, h, g) in
    rw (high, low) at (apart (16 * a + b) x)

small : holds_below 256 (λ x. (low_nibble x / 16 == 0) && (high_nibble x / 16 == 0)) ≡ true
unfolding holds_below
small = refl

below_16 : (x : ℕ) → x / 16 ≡ 0 → x < 16
below_16 x h = omega (arith, h)

-- The nibbles of a byte are below 16.
pub nibbles_small : (x : ℕ) → x < 256 → (low_nibble x < 16) × (high_nibble x < 16)
nibbles_small x h =
    let (a, b) = both (low_nibble x / 16) (high_nibble x / 16) 0 0 (checked 256 _ x small h) in
    (below_16 (low_nibble x) a, below_16 (high_nibble x) b)

low_bits : holds_below 256 (λ x. low_nibble x == x % 16) ≡ true
unfolding holds_below
low_bits = refl

-- The low nibble of a byte is its rest modulo 16.
pub low_nibble_mod : (x : ℕ) → x < 256 → low_nibble x ≡ x % 16
low_nibble_mod x h = (==_iff _ _).0 (checked 256 _ x low_bits h)

sums : holds_below 64 (λ x. combine (x % 16) (x / 16) == x) ≡ true
unfolding holds_below
sums = refl

-- Four bits with two above them are a sum.
pub combine-sum : (low high : ℕ) → low < 16 → high < 4 → combine low high ≡ low + 16 * high
combine-sum low high h g =
    let small_sum : low + 16 * high < 64 = omega (arith, h, g) in
    let a : (low + 16 * high) % 16 ≡ low = omega (arith, h, g) in
    let b : (low + 16 * high) / 16 ≡ high = omega (arith, h, g) in
    let table : combine ((low + 16 * high) % 16) ((low + 16 * high) / 16) ≡ low + 16 * high =
      (==_iff _ _).0 (checked 64 _ (low + 16 * high) sums small_sum) in
    rw (a, b) at table

two_bits : holds_below 256 (λ x. crumb x / 4 == 0) ≡ true
unfolding holds_below
two_bits = refl

below_4 : (x : ℕ) → x / 4 ≡ 0 → x < 4
below_4 x h = omega (arith, h)

-- Two bits of a byte are below 4.
pub crumb_small : (x : ℕ) → x < 256 → crumb x < 4
crumb_small x h = below_4 (crumb x) ((==_iff _ 0).0 (checked 256 _ x two_bits h))
