-- ===== src/KvCache/TrieMethods/NewPages.antt =====
-- `new_pages`: the request for pages that evicts once if it is refused.
use mathlib.Core.List.{reverse, reverse-cons}
use shark_platform.Prelude.{
  ℕ, ◌+◌, ◌-◌, ◌≤◌, ◌<◌, ◌≡◌, refl, ap, none, List, [], ◌∷◌, ◌++◌, arith, length, length-append,
}
use shark_platform.Prelude.Count.{count}
use shark_platform.Prelude.Exec.{Error, Result, ok, err, cache_allocation_failure}
use shark_platform.KvCache.PagePool.{PagePool, acquire_free_pages}
use shark_platform.KvCache.PagePool.Acquire.{
  Acquired, refused, granted, acquire_free_pages-Acquired, count-granted,
}
use shark_platform.KvCache.TrieNode.Links.{WellLinked}
use shark_platform.KvCache.Trie.{Runtime, TrieCache}
use shark_platform.KvCache.TrieEviction.{evict_pages}
use shark_platform.KvCache.TrieEviction.Evict.{
  Frame, Frame-trans, free_or_linked, EvictOutcome, evicted, failed, evict_pages-EvictOutcome,
}
use shark_platform.KvCache.TrieMethods.{pool_acquire, retry, new_pages}

module _ (rt : Runtime) (n : ℕ) (s : TrieCache) where
  -- What the eviction is asked for, if the pool refuses the request.
  abbrev pub eviction : Result ℕ × TrieCache
  eviction = evict_pages rt (n - length s.page_pool.available_pages) s

  -- Where the pages come from: from the pool, or from the pool after an eviction.
  pub data Supply (t : TrieCache) : Type 0 where
    from_pool : n ≤ length s.page_pool.available_pages → t.nodes ≡ s.nodes → Supply t
    after_eviction :
        (m : ℕ) (u : TrieCache)
        → length s.page_pool.available_pages < n
        → eviction ≡ (ok m, u)
        → n ≤ length u.page_pool.available_pages
        → t.nodes ≡ u.nodes
        → Supply t

  -- Why a request is denied: the pool has too few pages, and the eviction raises, or makes too few free.
  pub data Refusal (e : Error) (t : TrieCache) : Type 0 where
    eviction_raised : length s.page_pool.available_pages < n → eviction ≡ (err e, t) → Refusal e t
    still_few :
        (m : ℕ)
        → length s.page_pool.available_pages < n
        → eviction ≡ (ok m, t)
        → length t.page_pool.available_pages < n
        → e ≡ cache_allocation_failure
        → Refusal e t

-- How a request for `n` pages ends. The pages that it returns have left the pool and the trie.
pub data Request (rt : Runtime) (n : ℕ) (s : TrieCache) (out : Result (List ℕ) × TrieCache)
    : Type 0 where
  served :
      (pages : List ℕ) (t : TrieCache)
      → out ≡ (ok pages, t)
      → length pages ≡ n
      → ((p : ℕ) → free_or_linked p t + count p pages ≡ free_or_linked p s)
      → Frame s t
      → Supply rt n s t
      → Request rt n s out
  denied :
      (e : Error) (t : TrieCache)
      → out ≡ (err e, t)
      → ((p : ℕ) → free_or_linked p t ≤ free_or_linked p s)
      → Frame s t
      → Refusal rt n s e t
      → Request rt n s out

abbrev with_free : TrieCache → List ℕ → TrieCache
with_free s rest = record s { page_pool = record (s.page_pool) { available_pages = rest } }

Frame-pool :
    (s : TrieCache) (pool : PagePool)
    → WellLinked s.tokens_per_page s.nodes
    → Frame s (record s { page_pool = pool })
Frame-pool s pool w = record {
  linked_well = w;
  page_size = refl;
  allocations = refl;
  size = refl;
  counts = λ i. refl;
  spared = λ i h. refl;
}

length-reverse : (xs : List ℕ) → length (reverse xs) ≡ length xs
length-reverse [] = refl
length-reverse (x ∷ xs) =
    rw (reverse-cons x xs) (omega (arith, length-append (reverse xs) (x ∷ []), length-reverse xs))

enough :
    (free pages rest : List ℕ) {n : ℕ}
    → free ≡ rest ++ reverse pages
    → length pages ≡ n
    → n ≤ length free
enough free pages rest e size =
    omega (arith, ap length e, length-append rest (reverse pages), length-reverse pages, size)

module _ (rt : Runtime) (n : ℕ) where
  second :
      (s t : TrieCache)
      → length s.page_pool.available_pages < n
      → Frame s t
      → ((p : ℕ) → free_or_linked p t ≡ free_or_linked p s)
      → Acquired n t.page_pool (acquire_free_pages n t.page_pool)
      → {m : ℕ} → eviction rt n s ≡ (ok m, t)
      → Request rt n s (retry rt n none s)
  unfolding retry pool_acquire
  second s t little f kept (refused few run) {m} ev =
      denied cache_allocation_failure t (rw (ev, run)) (λ p. omega (arith, kept p)) f
        (still_few m little ev few refl)
  second s t little f kept (granted pages rest e size run) {m} ev =
      served pages (with_free t rest) (rw (ev, run)) size
        (λ p. omega (arith, kept p, count-granted p t.page_pool.available_pages pages rest e))
        (Frame-trans f (Frame-pool t _ (rw f.page_size f.linked_well)))
        (after_eviction m t little ev (enough t.page_pool.available_pages pages rest e size) refl)

  after_evict :
      (s : TrieCache)
      → length s.page_pool.available_pages < n
      → EvictOutcome (n - length s.page_pool.available_pages) s (eviction rt n s)
      → Request rt n s (retry rt n none s)
  unfolding retry
  after_evict s little (evicted m t ev _ _ kept f) =
      second s t little f kept (acquire_free_pages-Acquired n t.page_pool) ev
  after_evict s little (failed e t ev kept f) =
      denied e t (rw ev) kept f (eviction_raised little ev)

  Acquired-Request :
      (s : TrieCache)
      → WellLinked s.tokens_per_page s.nodes
      → Acquired n s.page_pool (acquire_free_pages n s.page_pool)
      → Request rt n s (new_pages rt n s)
  unfolding new_pages pool_acquire
  Acquired-Request s w (refused few run) =
      rw run (
        after_evict s few
          (evict_pages-EvictOutcome rt (n - length s.page_pool.available_pages) s w))
  Acquired-Request s w (granted pages rest e size run) =
      served pages (with_free s rest) (rw (run, retry)) size
        (λ p. omega (arith, count-granted p s.page_pool.available_pages pages rest e))
        (Frame-pool s _ w) (from_pool (enough s.page_pool.available_pages pages rest e size) refl)

  pub new_pages-Request :
      (s : TrieCache) → WellLinked s.tokens_per_page s.nodes → Request rt n s (new_pages rt n s)
  new_pages-Request s w = Acquired-Request s w (acquire_free_pages-Acquired n s.page_pool)
