-- ===== src/KvCache/TrieMethods/Extend.antt =====
-- `extend_allocation` keeps the invariant.
use shark_platform.Prelude.{
  ℕ, ◌+◌, ◌≤◌, ◌<◌, ◌≡◌, refl, inl, inr, true, false, List, [], ◌++◌, arith, length, set,
  get_or-set, Bool-cases, ltb, ◌==◌,
}
use shark_platform.Prelude.Count.{count, total-set}
use shark_platform.KvCache.Trie.{Runtime, TrieCache, Allocation}
use shark_platform.KvCache.TrieEviction.Evict.{Frame, Frame-refl, free_or_linked}
use shark_platform.KvCache.TrieMethods.{
  agree, alloc_at, on_alloc, no_allocation, new_pages, extend_allocation, new_pages_needed,
}
use shark_platform.KvCache.TrieMethods.Held.{unpublished, count-drop-append}
use shark_platform.KvCache.TrieMethods.NewPages.{Request, served, denied, new_pages-Request}
use shark_platform.KvCache.TrieMethods.Invariant.{Inv, holds}

module _ (a : ℕ) (s : TrieCache) (v : Inv s) (inside : a < length s.allocations) where
  -- An allocation is replaced by one that ends at the same node and has `extra` private pages more.
  pub Inv-replace :
      (t : TrieCache) (x : Allocation) (extra : List ℕ)
      → Frame s t
      → x.last_cached_node ≡ (alloc_at s a).last_cached_node
      → x.is_released ≡ (alloc_at s a).is_released
      → ((p : ℕ) → count p (unpublished x) ≤ count p (unpublished (alloc_at s a)) + count p extra)
      → ((p : ℕ) → free_or_linked p t + count p extra ≡ free_or_linked p s)
      → Inv (record t { allocations = set s.allocations a x })
  Inv-replace t x extra f last live few kept = record {
    positive = rw f.page_size v.positive;
    well = rw f.page_size f.linked_well;
    last_inside = λ b. ground (
      arith,
      f.size,
      get_or-set s.allocations a b x no_allocation inside,
      v.last_inside a,
      v.last_inside b,
    );
    exclusive = λ p. omega (
      arith,
      few p,
      kept p,
      v.exclusive p,
      total-set (λ y. count p (unpublished y)) s.allocations a x no_allocation inside,
    );
    refs = λ i.
        ground
          (arith, f.counts i, v.refs i, total-set (holds i) s.allocations a x no_allocation inside);
  }

  -- The tokens of an allocation play no part in the invariant.
  pub with_tokens-Inv : (tokens : List ℕ) → Inv (on_alloc a (λ x. record x { tokens = tokens }) s)
  with_tokens-Inv tokens =
      Inv-replace s (record (alloc_at s a) { tokens = tokens }) [] (Frame-refl s v.well) refl refl
        (λ p. omega arith) (λ p. omega arith)

  Inv-denied :
      (t : TrieCache) → Frame s t → ((p : ℕ) → free_or_linked p t ≤ free_or_linked p s) → Inv t
  Inv-denied t f kept = record {
    positive = rw f.page_size v.positive;
    well = rw f.page_size f.linked_well;
    last_inside = λ b. rw f.allocations (omega (arith, f.size, v.last_inside b));
    exclusive = λ p. rw f.allocations (omega (arith, kept p, v.exclusive p));
    refs = λ i. rw f.allocations (ground (arith, f.counts i, v.refs i));
  }

module _ (rt : Runtime) (a : ℕ) (tokens : List ℕ) (extra : ℕ) (s : TrieCache) (v : Inv s)
    (inside : a < length s.allocations) where
  abbrev needed : ℕ
  needed = new_pages_needed (length tokens + extra) (length (alloc_at s a).pages) s.tokens_per_page

  abbrev longer : Allocation → List ℕ → Allocation
  longer x pages = record x { pages = x.pages ++ pages; tokens = tokens }

  Inv-request :
      ltb (length tokens) (length (alloc_at s a).tokens) ≡ false
      → agree (alloc_at s a).tokens tokens ≡ true
      → (length tokens == length (alloc_at s a).tokens) ≡ false
      → (needed == 0) ≡ false
      → Request rt needed s (new_pages rt needed s)
      → Inv (extend_allocation rt a tokens extra s).1
  unfolding extend_allocation
  Inv-request h₀ h₁ h₂ h₃ (served pages t run _ kept f _) =
      rw (h₀, h₁, h₂, h₃, run)
        (rw f.allocations (
          Inv-replace a s v inside t (longer (alloc_at s a) pages) pages f refl refl
            (λ p.
              count-drop-append p (alloc_at s a).number_of_published_pages (alloc_at s a).pages
                pages)
            kept))
  Inv-request h₀ h₁ h₂ h₃ (denied e t run kept f _) =
      rw (h₀, h₁, h₂, h₃, run) (Inv-denied a s v inside t f kept)

  pub extend-Inv : Inv (extend_allocation rt a tokens extra s).1
  unfolding extend_allocation
  extend-Inv = elim (Bool-cases (ltb (length tokens) (length (alloc_at s a).tokens))) [
    | inl h₀ ↦ rw h₀ v
    | inr h₀ ↦ elim (Bool-cases (agree (alloc_at s a).tokens tokens)) [
      | inr h₁ ↦ rw (h₀, h₁) v
      | inl h₁ ↦ elim (Bool-cases (length tokens == length (alloc_at s a).tokens)) [
        | inl h₂ ↦ rw (h₀, h₁, h₂) v
        | inr h₂ ↦ elim (Bool-cases (needed == 0)) [
          | inl h₃ ↦ rw (h₀, h₁, h₂, h₃) (with_tokens-Inv a s v inside tokens)
          | inr h₃ ↦ Inv-request h₀ h₁ h₂ h₃ (new_pages-Request rt needed s v.well)
        ]
      ]
    ]
  ]
