-- ===== src/Types/LayoutUtils/RoundTrip.antt =====
-- Linearizing and interleaving are inverse to each other.
use mathlib.Core.Path.{subst}
use shark_platform.Prelude.{
  ℕ, zero, suc, ◌+◌, ◌/◌, ◌<◌, ◌≡◌, refl, sym, ap, ◌∙◌, true, arith, List, [], ◌∷◌, ◌++◌, map,
  length, take, drop, All, ◌==◌, ==_iff, length-append, length-take, length-drop, take-append-drop,
}
use shark_platform.Prelude.Exec.{ok, attempt}
use shark_platform.Types.LayoutUtils.{
  uint8, view_uint8_tensor, evens, odds, zip_with, elementwise, merge, low_nibble, high_nibble,
  linearize_interleaved_i4_block, weave, interleave_linear_i4_block,
}
use shark_platform.Types.LayoutUtils.Bytes.{merge-nibbles, nibbles-merge, nibbles_small}

abbrev pub Bytes : List ℕ → Type 0
Bytes = All (λ x. x < 256)

-- The rows in pairs: each entry of one with the entry of the other.
abbrev pub Pairs : List ℕ → List ℕ → Type 0
Pairs [] [] = Unit
Pairs [] (y ∷ ys) = ⊥
Pairs (x ∷ xs) [] = ⊥
Pairs (x ∷ xs) (y ∷ ys) = Pairs xs ys

evens-weave : (xs ys : List ℕ) → Pairs xs ys → evens (weave xs ys) ≡ xs
unfolding evens weave
evens-weave [] [] h = refl
evens-weave [] (y ∷ ys) h = absurd h
evens-weave (x ∷ xs) [] h = absurd h
evens-weave (x ∷ xs) (y ∷ ys) h = ap (◌∷◌ x) (evens-weave xs ys h)

odds-weave : (xs ys : List ℕ) → Pairs xs ys → odds (weave xs ys) ≡ ys
unfolding odds weave
odds-weave [] [] h = refl
odds-weave [] (y ∷ ys) h = absurd h
odds-weave (x ∷ xs) [] h = absurd h
odds-weave (x ∷ xs) (y ∷ ys) h = ap (◌∷◌ y) (odds-weave xs ys h)

evens-map : (f : ℕ → ℕ) (xs : List ℕ) → evens (map f xs) ≡ map f (evens xs)
unfolding evens
evens-map f [] = refl
evens-map f (x ∷ []) = refl
evens-map f (x ∷ (y ∷ xs)) = ap (◌∷◌ (f x)) (evens-map f xs)

odds-map : (f : ℕ → ℕ) (xs : List ℕ) → odds (map f xs) ≡ map f (odds xs)
unfolding odds
odds-map f [] = refl
odds-map f (x ∷ []) = refl
odds-map f (x ∷ (y ∷ xs)) = ap (◌∷◌ (f y)) (odds-map f xs)

-- A row of even length is woven of two rows.
halves :
    (n : ℕ) (xs : List ℕ)
    → length xs ≡ n + n
    → Pairs (evens xs) (odds xs) × (weave (evens xs) (odds xs) ≡ xs)
unfolding evens odds weave
halves zero [] h = (tt, refl)
halves zero (x ∷ xs) h = absurd (omega (arith, h))
halves (suc n) [] h = absurd (omega (arith, h))
halves (suc n) (x ∷ []) h = absurd (omega (arith, h))
halves (suc n) (x ∷ (y ∷ xs)) h =
    let (pairs, woven) = halves n xs (omega (arith, h)) in (pairs, ap (λ r. x ∷ y ∷ r) woven)

Pairs-length : (xs ys : List ℕ) → Pairs xs ys → length xs ≡ length ys
Pairs-length [] [] h = refl
Pairs-length [] (y ∷ ys) h = absurd h
Pairs-length (x ∷ xs) [] h = absurd h
Pairs-length (x ∷ xs) (y ∷ ys) h = ap suc (Pairs-length xs ys h)

length-Pairs : (xs ys : List ℕ) → length xs ≡ length ys → Pairs xs ys
length-Pairs [] [] h = tt
length-Pairs [] (y ∷ ys) h = absurd (omega (arith, h))
length-Pairs (x ∷ xs) [] h = absurd (omega (arith, h))
length-Pairs (x ∷ xs) (y ∷ ys) h = length-Pairs xs ys (omega (arith, h))

-- The two rows that linearizing puts one after the other.
abbrev low_row : List ℕ → List ℕ → List ℕ
low_row es os = zip_with merge (map low_nibble os) (map low_nibble es)

abbrev high_row : List ℕ → List ℕ → List ℕ
high_row es os = zip_with merge (map high_nibble os) (map high_nibble es)

-- The same operations take the rows apart again.
low_row-rows :
    (es os : List ℕ)
    → Pairs es os
    → Bytes es
    → Bytes os
    → low_row (low_row es os) (high_row es os) ≡ es
unfolding zip_with
low_row-rows [] [] h b c = refl
low_row-rows [] (o ∷ os) h b c = absurd h
low_row-rows (e ∷ es) [] h b c = absurd h
low_row-rows (e ∷ es) (o ∷ os) h (e_byte, b) (o_byte, c) =
    let (e_low, e_high) = nibbles_small e e_byte in
    let (o_low, o_high) = nibbles_small o o_byte in
    rw
      (
        (nibbles-merge (high_nibble o) (high_nibble e) o_high e_high).0,
        (nibbles-merge (low_nibble o) (low_nibble e) o_low e_low).0,
        merge-nibbles e e_byte,
        low_row-rows es os h b c,
      )
      refl

high_row-rows :
    (es os : List ℕ)
    → Pairs es os
    → Bytes es
    → Bytes os
    → high_row (low_row es os) (high_row es os) ≡ os
unfolding zip_with
high_row-rows [] [] h b c = refl
high_row-rows [] (o ∷ os) h b c = absurd h
high_row-rows (e ∷ es) [] h b c = absurd h
high_row-rows (e ∷ es) (o ∷ os) h (e_byte, b) (o_byte, c) =
    let (e_low, e_high) = nibbles_small e e_byte in
    let (o_low, o_high) = nibbles_small o o_byte in
    rw
      (
        (nibbles-merge (high_nibble o) (high_nibble e) o_high e_high).1,
        (nibbles-merge (low_nibble o) (low_nibble e) o_low e_low).1,
        merge-nibbles o o_byte,
        high_row-rows es os h b c,
      )
      refl

Pairs-rows : (es os : List ℕ) → Pairs es os → Pairs (low_row es os) (high_row es os)
unfolding zip_with
Pairs-rows [] [] h = tt
Pairs-rows [] (o ∷ os) h = absurd h
Pairs-rows (e ∷ es) [] h = absurd h
Pairs-rows (e ∷ es) (o ∷ os) h = Pairs-rows es os h

take-append : (xs ys : List ℕ) → take (length xs) (xs ++ ys) ≡ xs
take-append [] ys = refl
take-append (x ∷ xs) ys = ap (◌∷◌ x) (take-append xs ys)

drop-append : (xs ys : List ℕ) → drop (length xs) (xs ++ ys) ≡ ys
drop-append [] ys = refl
drop-append (x ∷ xs) ys = drop-append xs ys

half-append : (a b : List ℕ) → Pairs a b → (length (a ++ b) + 1) / 2 ≡ length a
half-append a b h = omega (arith, length-append a b, Pairs-length a b h)

length-map : (f : ℕ → ℕ) (xs : List ℕ) → length (map f xs) ≡ length xs
length-map f [] = refl
length-map f (x ∷ xs) = ap suc (length-map f xs)

elementwise-map :
    (f g : ℕ → ℕ) (xs ys : List ℕ)
    → Pairs ys xs
    → elementwise merge (map f xs) (map g ys) ≡ ok (zip_with merge (map f xs) (map g ys))
unfolding elementwise
elementwise-map f g xs ys h =
    let same : (length (map f xs) == length (map g ys)) ≡ true =
      (==_iff _ _).1 (length-map f xs ∙ sym (Pairs-length ys xs h) ∙ sym (length-map g ys)) in
    rw same refl

linearize-weave :
    (es os : List ℕ)
    → Pairs es os
    → linearize_interleaved_i4_block (uint8 (weave es os)) ≡ ok (low_row es os ++ high_row es os)
unfolding linearize_interleaved_i4_block view_uint8_tensor attempt
linearize-weave es os h =
    rw
      (
        evens-map low_nibble (weave es os),
        odds-map low_nibble (weave es os),
        evens-map high_nibble (weave es os),
        odds-map high_nibble (weave es os),
        evens-weave es os h,
        odds-weave es os h,
        elementwise-map low_nibble low_nibble os es h,
        elementwise-map high_nibble high_nibble os es h,
      )
      refl

interleave-append :
    (a b : List ℕ)
    → Pairs a b
    → interleave_linear_i4_block (uint8 (a ++ b)) ≡ ok (weave (low_row a b) (high_row a b))
unfolding interleave_linear_i4_block view_uint8_tensor attempt
interleave-append a b h =
    let even : (length a == length b) ≡ true = (==_iff _ _).1 (Pairs-length a b h) in
    rw (half-append a b h, take-append a b, drop-append a b, even) refl

Bytes-evens : (xs : List ℕ) → Bytes xs → Bytes (evens xs) × Bytes (odds xs)
unfolding evens odds
Bytes-evens [] b = (tt, tt)
Bytes-evens (x ∷ []) b = (b, tt)
Bytes-evens (x ∷ (y ∷ xs)) (x_byte, (y_byte, b)) =
    let (es, os) = Bytes-evens xs b in ((x_byte, es), (y_byte, os))

Bytes-split : (n : ℕ) (xs : List ℕ) → Bytes xs → Bytes (take n xs) × Bytes (drop n xs)
Bytes-split zero xs b = (tt, b)
Bytes-split (suc n) [] b = (tt, tt)
Bytes-split (suc n) (x ∷ xs) (x_byte, b) = let (ts, ds) = Bytes-split n xs b in ((x_byte, ts), ds)

module _ (a b : List ℕ) (pairs : Pairs a b) (a_bytes : Bytes a) (b_bytes : Bytes b) where
  interleave-weave :
      attempt
        (linearize_interleaved_i4_block (uint8 (weave a b)))
        (λ ys. interleave_linear_i4_block (uint8 ys))
      ≡ ok (weave a b)
  unfolding attempt
  interleave-weave =
      rw
        (
          linearize-weave a b pairs,
          interleave-append (low_row a b) (high_row a b) (Pairs-rows a b pairs),
          low_row-rows a b pairs a_bytes b_bytes,
          high_row-rows a b pairs a_bytes b_bytes,
        )
        refl

  linearize-append :
      attempt
        (interleave_linear_i4_block (uint8 (a ++ b)))
        (λ ys. linearize_interleaved_i4_block (uint8 ys))
      ≡ ok (a ++ b)
  unfolding attempt
  linearize-append =
      rw
        (
          interleave-append a b pairs,
          linearize-weave (low_row a b) (high_row a b) (Pairs-rows a b pairs),
          low_row-rows a b pairs a_bytes b_bytes,
          high_row-rows a b pairs a_bytes b_bytes,
        )
        refl

-- A row of an even number of bytes is given back when it is linearized and then interleaved, and when it
-- is interleaved and then linearized.
pub interleave-linearize :
    (n : ℕ) (xs : List ℕ)
    → length xs ≡ n + n
    → Bytes xs
    → (attempt
          (linearize_interleaved_i4_block (uint8 xs))
          (λ ys. interleave_linear_i4_block (uint8 ys))
        ≡ ok xs)
      × (attempt
            (interleave_linear_i4_block (uint8 xs))
            (λ ys. linearize_interleaved_i4_block (uint8 ys))
          ≡ ok xs)
interleave-linearize n xs even bytes =
    let (pairs, woven) = halves n xs even in
    let (es, os) = Bytes-evens xs bytes in
    let (front, back) = Bytes-split n xs bytes in
    let cut : Pairs (take n xs) (drop n xs) =
      length-Pairs (take n xs) (drop n xs)
        (omega (arith, even, length-take n xs, length-drop n xs)) in
    (
      subst
          (λ r.
            attempt (linearize_interleaved_i4_block (uint8 r))
              (λ ys. interleave_linear_i4_block (uint8 ys))
            ≡ ok r)
          woven (interleave-weave (evens xs) (odds xs) pairs es os),
      subst
          (λ r.
            attempt (interleave_linear_i4_block (uint8 r))
              (λ ys. linearize_interleaved_i4_block (uint8 ys))
            ≡ ok r)
          (take-append-drop n xs) (linearize-append (take n xs) (drop n xs) cut front back),
    )
