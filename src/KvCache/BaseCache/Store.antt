-- ===== src/KvCache/BaseCache/Store.antt =====
-- The cache without sharing with the allocations that it has handed out: an allocation is an object
-- that its requests refer to, here by its index.
pub mod Kept
use shark_platform.Prelude.{
  ℕ, ◌+◌, ◌*◌, ◌≤◌, ◌<◌, ◌≡◌, refl, sym, ap, ◌∙◌, Bool, true, false, List, [], ◌∷◌, ◌++◌, arith,
  length, set, get_or, get_or-set_cases, get_or-append, get_or-append_last, get_or_outside,
  length-append, length-set, Bool-cases, inl, inr, ◌==◌, if◌then◌else◌,
}
use shark_platform.Prelude.Count.{count, count-append, total, total-append, total-set}
use shark_platform.Prelude.Exec.{Exec, Error, Result, ok, err}
use shark_platform.KvCache.PagePool.{free_pages}
use shark_platform.KvCache.PagePool.Acquire.{count-granted}
use shark_platform.KvCache.BaseCache.{
  BaseCache, BaseAllocation, new_allocation, acquire_pages_for_tokens, extend_allocation,
  release_pages,
}
use shark_platform.KvCache.BaseCache.Allocation.{
  Allocated, exhausted, allocated, acquire-Allocated, with_free,
}
use shark_platform.KvCache.BaseCache.Extension.{
  Extended, suffices, grown, extend_allocation-Extended,
}

pub record BaseStore : Type 0 where
  pub cache : BaseCache
  pub allocations : List BaseAllocation

-- What a reference to no allocation would read.
abbrev pub no_allocation : BaseAllocation
no_allocation = record { pages = []; is_released = true }

abbrev pub alloc_at : BaseStore → ℕ → BaseAllocation
alloc_at s a = get_or s.allocations a no_allocation

abbrev pub keep_allocation : Result BaseAllocation × BaseCache → BaseStore → Result ℕ × BaseStore
keep_allocation (ok alloc, c) s =
    (ok (length s.allocations), record { cache = c; allocations = s.allocations ++ alloc ∷ [] })
keep_allocation (err e, c) s = (err e, record s { cache = c })

unfoldable pub store_acquire : List ℕ → ℕ → Exec BaseStore ℕ
store_acquire tokens extra s = keep_allocation (acquire_pages_for_tokens tokens extra s.cache) s

-- A method of an allocation has changed it and the cache.
abbrev pub put_back : ℕ → BaseAllocation × BaseCache → BaseStore → BaseStore
put_back a (alloc, c) s = record { cache = c; allocations = set s.allocations a alloc }

unfoldable pub store_extend : ℕ → List ℕ → ℕ → Exec BaseStore (Unit {0})
store_extend a tokens extra s =
    let (r, state) = extend_allocation tokens extra (alloc_at s a, s.cache) in
    (r, put_back a state s)

unfoldable pub store_release : ℕ → BaseStore → BaseStore
store_release a s = put_back a (release_pages (alloc_at s a, s.cache)) s

abbrev pub pages_held : ℕ → BaseAllocation → ℕ
pages_held p x = if x.is_released then 0 else count p x.pages

-- How often a page is free or held by an allocation that is not released.
abbrev pub held : ℕ → BaseStore → ℕ
held p s = total (pages_held p) s.allocations + count p s.cache.page_pool.available_pages

pub record IsExclusive (s : BaseStore) : Type 0 where
  pub positive : 0 < s.cache.tokens_per_page
  pub exclusive : (p : ℕ) → held p s ≤ 1

pub record Grows (s t : BaseStore) : Type 0 where
  pub page_size : t.cache.tokens_per_page ≡ s.cache.tokens_per_page
  pub more : length s.allocations ≤ length t.allocations
  pub longer : (a : ℕ) → length (alloc_at s a).pages ≤ length (alloc_at t a).pages

pub Grows-trans : {s t u : BaseStore} → Grows s t → Grows t u → Grows s u
Grows-trans g h = record {
  page_size = h.page_size ∙ g.page_size;
  more = omega (arith, g.more, h.more);
  longer = λ a. omega (arith, g.longer a, h.longer a);
}

pub Grows-refl : (s : BaseStore) → Grows s s
Grows-refl s = record { page_size = refl; more = omega arith; longer = λ a. omega arith }

Grows-append :
    (s : BaseStore) (c : BaseCache) (x : BaseAllocation)
    → c.tokens_per_page ≡ s.cache.tokens_per_page
    → Grows s (record { cache = c; allocations = s.allocations ++ x ∷ [] })
Grows-append s c x e = record {
  page_size = e;
  more = omega (arith, length-append s.allocations (x ∷ []));
  longer = λ b.
      rw (get_or-append s.allocations x b no_allocation)
        (elim (Bool-cases (b == length s.allocations)) [
          | inl e ↦
              rw (e, get_or_outside s.allocations b no_allocation (ground arith)) (omega arith)
          | inr e ↦ rw e (omega arith)
        ]);
}

Grows-put_back :
    (s : BaseStore) (a : ℕ) (x : BaseAllocation) (c : BaseCache)
    → c.tokens_per_page ≡ s.cache.tokens_per_page
    → length (alloc_at s a).pages ≤ length x.pages
    → Grows s (put_back a (x, c) s)
Grows-put_back s a x c e h = record {
  page_size = e;
  more = omega (arith, length-set s.allocations a x);
  longer = λ b. elim (get_or-set_cases s.allocations a b x no_allocation) [
    | inl k ↦ rw k (omega arith)
    | inr (same, _, k) ↦ rw (k, sym same) h
  ];
}
