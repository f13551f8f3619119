-- ===== src/KvCache/BaseCache/Store/Kept.antt =====
-- Every call keeps each page free or with one allocation, and no allocation loses a page.
use shark_platform.Prelude.{
  ℕ, zero, suc, ◌+◌, ◌*◌, ◌≤◌, ◌<◌, ◌≡◌, refl, sym, ap, true, List, [], ◌∷◌, ◌++◌, arith, length,
  set, get_or, get_or-append_last, get_or_outside, length-append, Bool-cases, inl, inr,
}
use shark_platform.Prelude.Count.{count, count-append, total-append, total-set}
use shark_platform.Prelude.Exec.{Result, ok, ok-value}
use shark_platform.KvCache.PagePool.{free_pages}
use shark_platform.KvCache.PagePool.Acquire.{count-granted}
use shark_platform.KvCache.BaseCache.{BaseCache, BaseAllocation, new_allocation, release_pages}
use shark_platform.KvCache.BaseCache.Allocation.{
  Allocated, exhausted, allocated, acquire-Allocated, with_free,
}
use shark_platform.KvCache.BaseCache.Extension.{
  State, Extended, suffices, grown, extend_allocation-Extended,
}
use shark_platform.KvCache.BaseCache.Extension
use shark_platform.KvCache.BaseCache.Store.{
  BaseStore, no_allocation, alloc_at, keep_allocation, put_back, store_acquire, store_extend,
  store_release, pages_held, IsExclusive, Grows, Grows-refl, Grows-append, Grows-put_back,
}

-- The allocation exists, and its pages have room for `n` tokens.
abbrev pub HasPages : BaseStore → ℕ → ℕ → Type 0
HasPages s a n =
    (a < length s.allocations) × (n ≤ length (alloc_at s a).pages * s.cache.tokens_per_page)

set-get_or {ℓ} : {A : Type ℓ} (xs : List A) (i : ℕ) (d : A) → set xs i (get_or xs i d) ≡ xs
set-get_or [] i d = refl
set-get_or (x ∷ xs) zero d = refl
set-get_or (x ∷ xs) (suc i) d = ap (◌∷◌ x) (set-get_or xs i d)

module _ (tokens : List ℕ) (extra : ℕ) (s : BaseStore) (v : IsExclusive s) where
  pub record Acquires (out : Result ℕ × BaseStore) : Type 0 where
    pub exclusive : IsExclusive out.1
    pub grows : Grows s out.1
    pub room : (a : ℕ) → out.0 ≡ ok a → HasPages out.1 a (length tokens)

  Allocated-Acquires :
      {out : Result BaseAllocation × BaseCache}
      → Allocated (length tokens) s.cache out
      → Acquires (keep_allocation out s)
  Allocated-Acquires (exhausted few run) =
      rw run (record { exclusive = v; grows = Grows-refl s; room = λ a e. absurd (cc) })
  Allocated-Acquires (allocated pages rest e n few run) = rw run (record {
    exclusive = record {
      positive = v.positive;
      exclusive = λ p. omega (
        arith,
        v.exclusive p,
        total-append (pages_held p) s.allocations (new_allocation pages ∷ []),
        count-granted p s.cache.page_pool.available_pages pages rest e,
      );
    };
    grows = Grows-append s (with_free s.cache rest) (new_allocation pages) refl;
    room = λ a k.
        rw (sym (ok-value k), get_or-append_last s.allocations (new_allocation pages) no_allocation)
          (omega (arith, length-append s.allocations (new_allocation pages ∷ [])), n);
  })

  pub acquire-Acquires : Acquires (store_acquire tokens extra s)
  unfolding store_acquire
  acquire-Acquires = Allocated-Acquires (acquire-Allocated tokens extra s.cache v.positive)

-- An allocation and the cache change, and the pages that the allocation gains leave the pool.
put_back-IsExclusive :
    (s : BaseStore) (a : ℕ) (x : BaseAllocation) (c : BaseCache)
    → IsExclusive s
    → a < length s.allocations
    → c.tokens_per_page ≡ s.cache.tokens_per_page
    → ((p : ℕ)
        → pages_held p x + count p c.page_pool.available_pages
          ≤ pages_held p (alloc_at s a) + count p s.cache.page_pool.available_pages)
    → IsExclusive (put_back a (x, c) s)
put_back-IsExclusive s a x c v inside e few = record {
  positive = rw e v.positive;
  exclusive = λ p. omega (
    arith,
    v.exclusive p,
    few p,
    total-set (pages_held p) s.allocations a x no_allocation inside,
  );
}

unchanged : (s : BaseStore) (a : ℕ) → put_back a (alloc_at s a, s.cache) s ≡ s
unchanged s a =
    ap (λ (xs : List BaseAllocation). record s { allocations = xs })
      (set-get_or s.allocations a no_allocation)

module _ (a : ℕ) (tokens : List ℕ) (extra : ℕ) (s : BaseStore) (v : IsExclusive s)
    (inside : a < length s.allocations) where
  Extended-kept :
      {out : Result (Unit {0}) × State}
      → Extended (length tokens + extra) (alloc_at s a) s.cache out
      → IsExclusive (put_back a out.1 s) × Grows s (put_back a out.1 s)
  Extended-kept (suffices _ run) = rw (run, unchanged s a) (v, Grows-refl s)
  Extended-kept (Extension.exhausted _ run) = rw (run, unchanged s a) (v, Grows-refl s)
  Extended-kept (grown pages rest e _ _ run) =
      let longer = record (alloc_at s a) { pages = (alloc_at s a).pages ++ pages } in
      rw run (
        put_back-IsExclusive s a longer (with_free s.cache rest) v inside refl (λ p. ground (
          arith,
          count-append p (alloc_at s a).pages pages,
          count-granted p s.cache.page_pool.available_pages pages rest e,
        )),
        Grows-put_back s a longer (with_free s.cache rest) refl
            (omega (arith, length-append (alloc_at s a).pages pages)),
      )

  pub extend-kept : let t = (store_extend a tokens extra s).1 in IsExclusive t × Grows s t
  unfolding store_extend
  extend-kept =
      Extended-kept (extend_allocation-Extended (alloc_at s a) s.cache tokens extra v.positive)

pub release-kept :
    (a : ℕ) (s : BaseStore)
    → IsExclusive s
    → IsExclusive (store_release a s) × Grows s (store_release a s)
unfolding store_release release_pages free_pages
release-kept a s v = elim (Bool-cases (alloc_at s a).is_released) [
  | inl e ↦ rw (e, unchanged s a) (v, Grows-refl s)
  | inr e ↦
      let inside : a < length s.allocations =
        ground (arith, get_or_outside s.allocations a no_allocation) in
      let released = record (alloc_at s a) { is_released = true } in
      let c = record (s.cache) { page_pool = free_pages (alloc_at s a).pages s.cache.page_pool } in
      rw e (
        put_back-IsExclusive s a released c v inside refl (λ p.
            rw e (
              omega
                (arith, count-append p s.cache.page_pool.available_pages (alloc_at s a).pages))),
        Grows-put_back s a released c refl (omega arith),
      )
]
