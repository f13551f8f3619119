-- ===== src/KvCache/BaseCache/Extension.antt =====
-- `extend_allocation` and `release_pages`: an allocation grows by the pages it lacks, and a release
-- gives every page back once.
use mathlib.Core.List.{reverse}
use shark_platform.Prelude.{
  ℕ, ◌+◌, ◌-◌, ◌*◌, ◌≤◌, ◌<◌, ◌≡◌, inl, inr, true, false, List, ◌++◌, arith, length, length-append,
  Bool-cases, ltb, if◌then◌else◌,
}
use shark_platform.Prelude.Count.{count, count-append}
use shark_platform.Prelude.Ceil.{ceil_div, le-ceil_div, ceil_div-lt}
use shark_platform.Prelude.Exec.{Result, ok, err, cache_allocation_failure}
use shark_platform.KvCache.PagePool.{acquire_free_pages, free_pages}
use shark_platform.KvCache.PagePool.Acquire.{
  Acquired, refused, granted, acquire_free_pages-Acquired, count-granted,
}
use shark_platform.KvCache.BaseCache.{
  BaseCache, BaseAllocation, pages_needed_pos, release_pages, extend_allocation, grow_to,
}
use shark_platform.KvCache.BaseCache.Allocation.{with_free, too_few}

abbrev pub State : Type 0
State = BaseAllocation × BaseCache

-- How `extend_allocation` ends for `n` slots.
pub data Extended (n : ℕ) (alloc : BaseAllocation) (c : BaseCache) (out : Result (Unit {0}) × State)
    : Type 0 where
  suffices :
      n ≤ length alloc.pages * c.tokens_per_page
      → out ≡ (ok tt, (alloc, c))
      → Extended n alloc c out
  exhausted :
      (length alloc.pages + length c.page_pool.available_pages) * c.tokens_per_page < n
      → out ≡ (err cache_allocation_failure, (alloc, c))
      → Extended n alloc c out
  grown :
      (new_pages rest : List ℕ)
      → c.page_pool.available_pages ≡ rest ++ reverse new_pages
      → n ≤ length (alloc.pages ++ new_pages) * c.tokens_per_page
      → length (alloc.pages ++ new_pages) * c.tokens_per_page < n + c.tokens_per_page
      → out ≡ (ok tt, (record alloc { pages = alloc.pages ++ new_pages }, with_free c rest))
      → Extended n alloc c out

module _ (alloc : BaseAllocation) (c : BaseCache) (n : ℕ) (positive : 0 < c.tokens_per_page) where
  abbrev needed : ℕ
  needed = ceil_div n c.tokens_per_page

  abbrev missing : ℕ
  missing = needed - length alloc.pages

  grown_of :
      ltb (length alloc.pages) needed ≡ true
      → Acquired missing c.page_pool (acquire_free_pages missing c.page_pool)
      → Extended n alloc c (grow_to needed (alloc, c))
  unfolding grow_to
  grown_of short (refused few run) =
      exhausted (too_few _ _ _ positive (ground arith)) (rw (short, run))
  grown_of short (granted pages rest e k run) =
      let size : length (alloc.pages ++ pages) ≡ needed =
        ground (arith, length-append alloc.pages pages) in
      grown pages rest e (rw size (le-ceil_div _ _ positive)) (rw size (ceil_div-lt _ _ positive))
        (rw (short, run))

  enough : needed ≤ length alloc.pages → n ≤ length alloc.pages * c.tokens_per_page
  enough h = grind (arith, le-ceil_div n c.tokens_per_page positive)

  grow_to-Extended : Extended n alloc c (grow_to needed (alloc, c))
  unfolding grow_to
  grow_to-Extended = elim (Bool-cases (ltb (length alloc.pages) needed)) [
    | inl short ↦ grown_of short (acquire_free_pages-Acquired missing c.page_pool)
    | inr long ↦ suffices (enough (ground arith)) (rw long)
  ]

module _ (alloc : BaseAllocation) (c : BaseCache) (tokens : List ℕ) (extra : ℕ)
    (positive : 0 < c.tokens_per_page) where
  -- Where a page holds a token at least, `extend_allocation` ends in one of three ways. If the pages
  -- hold the tokens and the extra slots already, nothing changes. If they and all free pages together
  -- do not, it raises a `CacheAllocationFailure` and changes nothing. Otherwise it appends the last
  -- free pages, as few as are missing.
  pub extend_allocation-Extended :
      Extended (length tokens + extra) alloc c (extend_allocation tokens extra (alloc, c))
  unfolding extend_allocation
  extend_allocation-Extended =
      rw
        (pages_needed_pos {S = State} (length tokens + extra) c.tokens_per_page (alloc, c) positive)
        (grow_to-Extended alloc c (length tokens + extra) positive)

-- The pages that an unreleased allocation and its cache hold together, with multiplicity.
abbrev held : ℕ → State → ℕ
held a (alloc, c) =
    (if alloc.is_released then 0 else count a alloc.pages) + count a c.page_pool.available_pages

-- A release neither loses a page of the allocation or the pool nor makes one up, and a second
-- release changes nothing.
release_pages-held :
    (a : ℕ) (s : State)
    → (held a (release_pages s) ≡ held a s) × (release_pages (release_pages s) ≡ release_pages s)
unfolding release_pages free_pages
release_pages-held a (alloc, c) =
    ground (arith, count-append a c.page_pool.available_pages alloc.pages)

-- Where a page holds a token at least, an extension of an allocation that is not released neither
-- loses a page of the allocation or the pool nor makes one up, whether it succeeds or raises.
extend_allocation-held :
    (a : ℕ) (alloc : BaseAllocation) (c : BaseCache) (tokens : List ℕ) (extra : ℕ)
    → 0 < c.tokens_per_page
    → alloc.is_released ≡ false
    → held a (extend_allocation tokens extra (alloc, c)).1 ≡ held a (alloc, c)
extend_allocation-held a alloc c tokens extra positive live =
    elim (extend_allocation-Extended alloc c tokens extra positive) [
      | suffices _ run ↦ rw run
      | exhausted _ run ↦ rw run
      | grown pages rest e _ _ run ↦
          rw (run, live)
            (omega (
              arith,
              count-append a alloc.pages pages,
              count-granted a c.page_pool.available_pages pages rest e,
            ))
    ]
