-- ===== src/KvCache/Trie/Blocks.antt =====
-- The blocks of a token list: as many full ones as fit, and nothing of the tokens lost.
use mathlib.Core.List.{flatten}
use shark_platform.Prelude.{
  ℕ, zero, suc, ◌+◌, ◌*◌, ◌≤◌, ◌<◌, ◌≡◌, ap, List, [], ◌∷◌, ◌++◌, arith, length, take, drop, All,
  length-take, length-drop, take-nil, take-add,
}
use shark_platform.KvCache.Trie.{blocks, blocks_fuel}

abbrev pub Full : ℕ → List ℕ → Type 0
Full size block = length block ≡ size

module _ (size : ℕ) (positive : 0 < size) where
  Full-fuel :
      (k f : ℕ) (ts : List ℕ)
      → length ts ≤ f
      → k * size ≤ length ts
      → (k ≤ length (blocks_fuel f size ts)) × All (Full size) (take k (blocks_fuel f size ts))
  unfolding blocks_fuel
  Full-fuel zero f ts h fits = (omega arith, tt)
  Full-fuel (suc k) f [] h fits = absurd (grind arith)
  Full-fuel (suc k) zero (t ∷ ts) h fits = absurd (omega arith)
  Full-fuel (suc k) (suc f) (t ∷ ts) h fits =
      let room : size + k * size ≤ length (t ∷ ts) = grind arith in
      let (n, full) =
        Full-fuel k f (drop size (t ∷ ts)) (omega (arith, length-drop size (t ∷ ts)))
          (omega (arith, length-drop size (t ∷ ts))) in
      (omega arith, (omega (arith, length-take size (t ∷ ts)), full))

  -- The first `k` blocks are there and are full, where the tokens fill `k` of them.
  pub blocks-Full :
      (k : ℕ) (ts : List ℕ)
      → k * size ≤ length ts
      → (k ≤ length (blocks size ts)) × All (Full size) (take k (blocks size ts))
  unfolding blocks
  blocks-Full k ts = Full-fuel k (length ts) ts (omega arith)

  flatten_fuel :
      (k f : ℕ) (ts : List ℕ)
      → length ts ≤ f
      → flatten (take k (blocks_fuel f size ts)) ≡ take (k * size) ts
  unfolding blocks_fuel flatten
  flatten_fuel zero f ts h = let e : 0 * size ≡ 0 = omega arith in rw e
  flatten_fuel (suc k) zero [] h = rw (take-nil (suc k * size))
  flatten_fuel (suc k) (suc f) [] h = rw (take-nil (suc k * size))
  flatten_fuel (suc k) zero (t ∷ ts) h = absurd (omega arith)
  flatten_fuel (suc k) (suc f) (t ∷ ts) h =
      let e : suc k * size ≡ size + k * size = grind arith in
      rw (e, take-add size (k * size) (t ∷ ts))
        (ap (◌++◌ (take size (t ∷ ts)))
          (flatten_fuel k f (drop size (t ∷ ts)) (omega (arith, length-drop size (t ∷ ts)))))

  -- The first `k` blocks together are the first `k * size` tokens.
  pub flatten-blocks :
      (k : ℕ) (ts : List ℕ) → flatten (take k (blocks size ts)) ≡ take (k * size) ts
  unfolding blocks
  flatten-blocks k ts = flatten_fuel k (length ts) ts (omega arith)
