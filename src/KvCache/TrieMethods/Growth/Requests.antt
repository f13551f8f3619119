-- ===== src/KvCache/TrieMethods/Growth/Requests.antt =====
-- The methods that ask for pages.
use shark_platform.Prelude.{
  ℕ, ◌+◌, ◌≡◌, refl, ◌∙◌, inl, inr, true, false, List, ◌++◌, arith, length, length-append,
  Bool-cases, ltb, ◌==◌,
}
use shark_platform.KvCache.Trie.{Runtime, match, TrieCache}
use shark_platform.KvCache.TrieMethods.{
  alloc_at, incref, agree, new_pages, new_pages_needed, extend_allocation, acquire_pages_for_tokens,
  empty_pages, allocation_of,
}
use shark_platform.KvCache.TrieMethods.NewPages.{Request, served, denied, new_pages-Request}
use shark_platform.KvCache.TrieMethods.Invariant.{Inv}
use shark_platform.KvCache.TrieMethods.Acquire.{match-Referred, Referred}
use shark_platform.KvCache.TrieMethods.Growth.{
  Grows, Grows-trans, Grows-same, Grows-append, Grows-on_alloc, renamed-Grows,
}

module _ (rt : Runtime) where
  module _ (a : ℕ) (tokens : List ℕ) (extra : ℕ) (s : TrieCache) where
    abbrev needed : ℕ
    needed =
        new_pages_needed (length tokens + extra) (length (alloc_at s a).pages) s.tokens_per_page

    request-Grows :
        ltb (length tokens) (length (alloc_at s a).tokens) ≡ false
        → agree (alloc_at s a).tokens tokens ≡ true
        → (length tokens == length (alloc_at s a).tokens) ≡ false
        → (needed == 0) ≡ false
        → Request rt needed s (new_pages rt needed s)
        → Grows s (extend_allocation rt a tokens extra s).1
    unfolding extend_allocation
    request-Grows h₀ h₁ h₂ h₃ (served pages t run _ kept f _) =
        rw (h₀, h₁, h₂, h₃, run)
          (Grows-trans (Grows-same s t f.page_size f.allocations) (
            Grows-on_alloc t a (λ x. record x { pages = x.pages ++ pages; tokens = tokens })
              (omega (arith, length-append (alloc_at t a).pages pages))))
    request-Grows h₀ h₁ h₂ h₃ (denied e t run kept f _) =
        rw (h₀, h₁, h₂, h₃, run) (Grows-same s t f.page_size f.allocations)

    pub extend-Grows : Inv s → Grows s (extend_allocation rt a tokens extra s).1
    unfolding extend_allocation
    extend-Grows v = elim (Bool-cases (ltb (length tokens) (length (alloc_at s a).tokens))) [
      | inl h₀ ↦ rw h₀ (Grows-same s s refl refl)
      | inr h₀ ↦ elim (Bool-cases (agree (alloc_at s a).tokens tokens)) [
        | inr h₁ ↦ rw (h₀, h₁) (Grows-same s s refl refl)
        | inl h₁ ↦ elim (Bool-cases (length tokens == length (alloc_at s a).tokens)) [
          | inl h₂ ↦ rw (h₀, h₁, h₂) (Grows-same s s refl refl)
          | inr h₂ ↦ elim (Bool-cases (needed == 0)) [
            | inl h₃ ↦ rw (h₀, h₁, h₂, h₃) (renamed-Grows a tokens s)
            | inr h₃ ↦ request-Grows h₀ h₁ h₂ h₃ (new_pages-Request rt needed s v.well)
          ]
        ]
      ]
    ]

  module _ (tokens : List ℕ) (extra : ℕ) (s : TrieCache) where
    abbrev matched : ℕ × List ℕ × TrieCache
    matched = match rt tokens s

    abbrev wanted : ℕ
    wanted = empty_pages (length tokens + extra) (length matched.1) s.tokens_per_page

    acquired-Grows :
        Referred s (incref matched.0 matched.2) matched.0
        → Request rt wanted
            (incref matched.0 matched.2)
            (new_pages rt wanted (incref matched.0 matched.2))
        → Grows s (acquire_pages_for_tokens rt tokens extra s).1
    unfolding acquire_pages_for_tokens
    acquired-Grows r (served pages t run n _ f _) = rw run (
        Grows-trans (Grows-same s t (f.page_size ∙ r.page_size) (f.allocations ∙ r.allocations))
          (Grows-append t (allocation_of tokens matched.0 matched.1 pages)))
    acquired-Grows r (denied e t run _ f _) =
        rw run (Grows-same s t (f.page_size ∙ r.page_size) (f.allocations ∙ r.allocations))

    pub acquire-Grows : Inv s → Grows s (acquire_pages_for_tokens rt tokens extra s).1
    acquire-Grows v =
        let r : Referred s (incref matched.0 matched.2) matched.0 = match-Referred rt tokens s v in
        acquired-Grows r
          (new_pages-Request rt wanted (incref matched.0 matched.2) (rw r.page_size r.well))
