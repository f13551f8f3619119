-- ===== src/Examples/Pages.antt =====
-- A pool of four pages on one device, and the cache without sharing over it.
use shark_platform.Prelude.{ℕ, ◌≡◌, refl, none, some, List, [], ◌∷◌, arith}
use shark_platform.Prelude.Exec.{ok}
use shark_platform.KvCache.PagePool
use shark_platform.KvCache.PagePool.{PagePool, PageTable, acquire_free_pages, copy_page}
use shark_platform.KvCache.PagePool.Acquire.{Acquired, acquire_free_pages-Acquired}
use shark_platform.KvCache.PagePool.Copy.{Copied, copy_page-Copied}
use shark_platform.KvCache.BaseCache.{
  BaseCache, BaseAllocation, new_allocation, acquire_pages_for_tokens, extend_allocation,
}
use shark_platform.KvCache.BaseCache.Allocation.{Allocated, acquire-Allocated}
use shark_platform.KvCache.BaseCache.Extension.{Extended, extend_allocation-Extended}

abbrev table : PageTable
table = (10 ∷ 11 ∷ []) ∷ (20 ∷ 21 ∷ []) ∷ (30 ∷ 31 ∷ []) ∷ (40 ∷ 41 ∷ []) ∷ []

abbrev pool : PagePool
pool = PagePool.init (table ∷ []) 4

-- The last free pages go first.
acquire_two : (acquire_free_pages 2 pool).0 ≡ ok (some (3 ∷ 2 ∷ []))
unfolding acquire_free_pages PagePool.init
acquire_two = refl

acquire_five : acquire_free_pages 5 pool ≡ (ok none, pool)
unfolding acquire_free_pages PagePool.init
acquire_five = refl

copied_row :
    (copy_page 1 pool).1.page_tables
    ≡ ((10 ∷ 11 ∷ []) ∷ (20 ∷ 21 ∷ []) ∷ (30 ∷ 31 ∷ []) ∷ (20 ∷ 21 ∷ []) ∷ []) ∷ []
unfolding copy_page acquire_free_pages PagePool.init
copied_row = refl

acquire_free_pages-Acquired_example : Acquired 3 pool (acquire_free_pages 3 pool)
acquire_free_pages-Acquired_example = acquire_free_pages-Acquired 3 pool

copy_page-Copied_example : Copied 1 pool (copy_page 1 pool)
copy_page-Copied_example = copy_page-Copied 1 pool

abbrev cache : BaseCache
cache = record { page_pool = pool; tokens_per_page = 2 }

abbrev tokens : List ℕ
tokens = 5 ∷ 6 ∷ 7 ∷ []

acquire-Allocated_example : Allocated 3 cache (acquire_pages_for_tokens tokens 1 cache)
acquire-Allocated_example = acquire-Allocated tokens 1 cache (omega arith)

abbrev two_pages : BaseAllocation
two_pages = new_allocation (3 ∷ 2 ∷ [])

extend_allocation-Extended_example :
    Extended 6 two_pages cache (extend_allocation tokens 3 (two_pages, cache))
extend_allocation-Extended_example =
    extend_allocation-Extended two_pages cache tokens 3 (omega arith)
