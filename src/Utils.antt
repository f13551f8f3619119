-- ===== src/Utils.antt =====
-- sharktank/sharktank/utils: `longest_equal_range` of misc.py, on lists of numbers.
use shark_platform.Prelude.{
  ℕ, zero, suc, ◌≤◌, ◌≡◌, refl, false, List, [], ◌∷◌, arith, length, take, ◌==◌, if◌then◌else◌,
  Bool-cases, inl, inr,
}

-- The index of the first difference, or the length of the shorter list.
unfoldable pub longest_equal_range : List ℕ → List ℕ → ℕ
longest_equal_range [] l2 = 0
longest_equal_range (a ∷ l1) [] = 0
longest_equal_range (a ∷ l1) (b ∷ l2) =
    let rest = longest_equal_range l1 l2 in if a == b then suc rest else 0

-- A number that is the greatest of those up to which two lists agree.
pub record Longest (l1 l2 : List ℕ) (n : ℕ) : Type 0 where
  pub within_first : n ≤ length l1
  pub within_second : n ≤ length l2
  pub agrees : take n l1 ≡ take n l2
  pub greatest : (i : ℕ) → i ≤ length l1 → i ≤ length l2 → take i l1 ≡ take i l2 → i ≤ n

-- `longest_equal_range` is the greatest `i`, within both lists, with equal prefixes of that length.
pub longest_equal_range-Longest : (l1 l2 : List ℕ) → Longest l1 l2 (longest_equal_range l1 l2)
unfolding longest_equal_range
longest_equal_range-Longest [] l2 = record {
  within_first = omega arith;
  within_second = omega arith;
  agrees = refl;
  greatest = λ i h k e. h;
}
longest_equal_range-Longest (a ∷ l1) [] = record {
  within_first = omega arith;
  within_second = omega arith;
  agrees = refl;
  greatest = λ i h k e. k;
}
longest_equal_range-Longest (a ∷ l1) (b ∷ l2) = elim (Bool-cases (a == b)) [
  | inl same ↦
      let v : Longest l1 l2 (longest_equal_range l1 l2) = longest_equal_range-Longest l1 l2 in
      rw same (record {
        within_first = omega (arith, v.within_first);
        within_second = omega (arith, v.within_second);
        agrees = ground (arith, v.agrees);
        greatest = elim_suc v;
      })
  | inr differ ↦ rw differ (record {
    within_first = omega arith;
    within_second = omega arith;
    agrees = refl;
    greatest = none_agree differ;
  })
]
  where
    elim_suc :
        Longest l1 l2 (longest_equal_range l1 l2)
        → (i : ℕ) → i ≤ length (a ∷ l1)
        → i ≤ length (b ∷ l2)
        → take i (a ∷ l1) ≡ take i (b ∷ l2)
        → i ≤ suc (longest_equal_range l1 l2)
    elim_suc v zero h k e = omega arith
    elim_suc v (suc i) h k e =
        omega (arith, v.greatest i (omega (arith, h)) (omega (arith, k)) (ground (arith, e)))

    none_agree :
        (a == b) ≡ false
        → (i : ℕ) → i ≤ length (a ∷ l1)
        → i ≤ length (b ∷ l2)
        → take i (a ∷ l1) ≡ take i (b ∷ l2)
        → i ≤ 0
    none_agree differ zero h k e = omega arith
    none_agree differ (suc i) h k e = absurd (ground (arith, e))
