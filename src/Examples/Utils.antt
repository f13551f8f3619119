-- ===== src/Examples/Utils.antt =====
-- Two lists that differ in their third entry.
use shark_platform.Prelude.{◌≡◌, refl, [], ◌∷◌}
use shark_platform.Utils.{longest_equal_range, Longest, longest_equal_range-Longest}

two_agree : longest_equal_range (4 ∷ 5 ∷ 6 ∷ []) (4 ∷ 5 ∷ 7 ∷ 6 ∷ []) ≡ 2
unfolding longest_equal_range
two_agree = refl

longest_equal_range-Longest_example :
    Longest
      (4 ∷ 5 ∷ 6 ∷ [])
      (4 ∷ 5 ∷ 7 ∷ 6 ∷ [])
      (longest_equal_range (4 ∷ 5 ∷ 6 ∷ []) (4 ∷ 5 ∷ 7 ∷ 6 ∷ []))
longest_equal_range-Longest_example =
    longest_equal_range-Longest (4 ∷ 5 ∷ 6 ∷ []) (4 ∷ 5 ∷ 7 ∷ 6 ∷ [])
