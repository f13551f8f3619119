-- ===== src/KvCache/BaseCache/Allocation.antt =====
-- How many pages an allocation without sharing holds, and what a release gives back.
use mathlib.Core.List.{reverse}
use shark_platform.Prelude.{ℕ, ◌+◌, ◌*◌, ◌≤◌, ◌<◌, ◌≡◌, List, ◌++◌, arith, length}
use shark_platform.Prelude.Ceil.{ceil_div, le-ceil_div, ceil_div-lt}
use shark_platform.Prelude.Exec.{Result, ok, err, cache_allocation_failure}
use shark_platform.KvCache.PagePool.{acquire_free_pages}
use shark_platform.KvCache.PagePool.Acquire.{
  Acquired, refused, granted, acquire_free_pages-Acquired,
}
use shark_platform.KvCache.BaseCache.{
  BaseCache, BaseAllocation, new_allocation, pages_needed_pos, acquire_pages_for_tokens,
}

-- The cache with other free pages.
abbrev pub with_free : BaseCache → List ℕ → BaseCache
with_free c rest = record c { page_pool = record (c.page_pool) { available_pages = rest } }

-- How `acquire_pages_for_tokens` ends for `n` tokens.
pub data Allocated (n : ℕ) (c : BaseCache) (out : Result BaseAllocation × BaseCache) : Type 0 where
  exhausted :
      length c.page_pool.available_pages * c.tokens_per_page < n
      → out ≡ (err cache_allocation_failure, c)
      → Allocated n c out
  allocated :
      (pages rest : List ℕ)
      → c.page_pool.available_pages ≡ rest ++ reverse pages
      → n ≤ length pages * c.tokens_per_page
      → length pages * c.tokens_per_page < n + c.tokens_per_page
      → out ≡ (ok (new_allocation pages), with_free c rest)
      → Allocated n c out

-- Fewer pages than the ceiling do not hold the tokens.
pub too_few : (k n b : ℕ) → 0 < b → k < ceil_div n b → k * b < n
too_few k n b pos h = grind (arith, ceil_div-lt n b pos)

module _ (tokens : List ℕ) (extra : ℕ) (c : BaseCache) (positive : 0 < c.tokens_per_page) where
  abbrev needed : ℕ
  needed = ceil_div (length tokens) c.tokens_per_page

  allocated_of :
      Acquired needed c.page_pool (acquire_free_pages needed c.page_pool)
      → Allocated (length tokens) c (acquire_pages_for_tokens tokens extra c)
  unfolding acquire_pages_for_tokens
  allocated_of (refused few run) =
      exhausted (too_few _ _ _ positive few)
        (rw (pages_needed_pos (length tokens) c.tokens_per_page c positive, run))
  allocated_of (granted pages rest e n run) =
      allocated pages rest e (rw n (le-ceil_div _ _ positive)) (rw n (ceil_div-lt _ _ positive))
        (rw (pages_needed_pos (length tokens) c.tokens_per_page c positive, run))

  -- Where a page holds a token at least, a request ends in one of two ways. If all free pages
  -- together cannot hold the tokens, it raises a `CacheAllocationFailure` and changes nothing.
  -- Otherwise it takes the last free pages, as few as hold the tokens; whatever slots the caller asks
  -- for beyond the tokens.
  pub acquire-Allocated : Allocated (length tokens) c (acquire_pages_for_tokens tokens extra c)
  acquire-Allocated = allocated_of (acquire_free_pages-Acquired needed c.page_pool)
