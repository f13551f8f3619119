-- ===== src/KvCache/BaseCache.antt =====
-- kvcache/base_attention_cache.py: the cache that shares nothing. A method of an allocation acts
-- on the pair of the allocation and its cache.
pub mod Allocation
pub mod Extension
pub mod Store
use shark_platform.Prelude.{
  ℕ, ◌+◌, ◌<◌, ◌≡◌, arith, ◌-◌, Bool, true, false, Option, none, some, List, ◌++◌, length, take,
  map, get_or, ltb, ◌==◌, if◌then◌else◌,
}
use shark_platform.Prelude.Ceil.{ceil_div}
use shark_platform.Prelude.Exec.{
  Exec, Result, ok, err, pure, raise, ◌>>=◌, ◌>>◌, zero_division_error, cache_allocation_failure,
}
use shark_platform.KvCache.PagePool.{PagePool, acquire_free_pages, free_pages}

pub record BaseCache : Type 0 where
  pub page_pool : PagePool
  pub tokens_per_page : ℕ

pub record BaseAllocation : Type 0 where
  pub pages : List ℕ
  pub is_released : Bool

-- math.ceil(count / tokens_per_page), where the division raises on 0
unfoldable pub pages_needed : {S : Type 0} → ℕ → ℕ → Exec S ℕ
pages_needed count per_page s =
    if per_page == 0 then (err zero_division_error, s) else (ok (ceil_div count per_page), s)

pub pages_needed_pos :
    {S : Type 0} (count per_page : ℕ) (s : S)
    → 0 < per_page
    → pages_needed count per_page s ≡ (ok (ceil_div count per_page), s)
unfolding pages_needed
pages_needed_pos count per_page s h = ground arith

-- Runs a method of the pool on the cache that owns it.
abbrev pub with_pool : {A : Type 0} → Exec PagePool A → Exec BaseCache A
with_pool m c = let (r, pool) = m c.page_pool in (r, record c { page_pool = pool })

abbrev pub new_allocation : List ℕ → BaseAllocation
new_allocation pages = record { pages = pages; is_released = false }

allocate : Option (List ℕ) → Exec BaseCache BaseAllocation
allocate none = raise cache_allocation_failure
allocate (some pages) = pure (new_allocation pages)

-- `extra_token_slots` is read by nothing in the body.
unfoldable pub acquire_pages_for_tokens : List ℕ → ℕ → Exec BaseCache BaseAllocation
unfolding allocate ◌>>=◌
acquire_pages_for_tokens tokens extra_token_slots cache =
    (do
      count ← pages_needed (length tokens) cache.tokens_per_page
      pages ← with_pool (acquire_free_pages count)
      allocate pages)
      cache

-- A second release only logs a warning.
unfoldable pub release_pages : BaseAllocation × BaseCache → BaseAllocation × BaseCache
release_pages (alloc, cache) = if alloc.is_released then (alloc, cache) else (
  record alloc { is_released = true },
  record cache { page_pool = free_pages alloc.pages cache.page_pool },
)

abbrev pub on_cache : {A : Type 0} → Exec BaseCache A → Exec (BaseAllocation × BaseCache) A
on_cache m (alloc, cache) = let (r, cache') = m cache in (r, (alloc, cache'))

append_pages : Option (List ℕ) → Exec (BaseAllocation × BaseCache) (Unit {0})
append_pages none state = raise cache_allocation_failure state
append_pages (some new_pages) (alloc, cache) =
    pure tt (record alloc { pages = alloc.pages ++ new_pages }, cache)

grow_to : ℕ → Exec (BaseAllocation × BaseCache) (Unit {0})
unfolding append_pages ◌>>=◌
grow_to count (alloc, cache) =
    if ltb (length alloc.pages) count
    then (do
      new_pages ← on_cache (with_pool (acquire_free_pages (count - length alloc.pages)))
      append_pages new_pages)
        (alloc, cache)
    else pure tt (alloc, cache)

unfoldable pub extend_allocation : List ℕ → ℕ → Exec (BaseAllocation × BaseCache) (Unit {0})
unfolding grow_to ◌>>=◌
extend_allocation tokens extra_token_slots (alloc, cache) =
    (do
      count ← pages_needed (length tokens + extra_token_slots) cache.tokens_per_page
      grow_to count)
      (alloc, cache)
