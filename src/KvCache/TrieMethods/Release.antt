-- ===== src/KvCache/TrieMethods/Release.antt =====
-- `release_pages` keeps the invariant.
use shark_platform.Prelude.{
  ℕ, ◌<◌, ◌≡◌, inl, inr, true, false, arith, length, get_or-set, get_or_outside, Bool-cases,
}
use shark_platform.Prelude.Count.{count, total-set}
use shark_platform.KvCache.TrieNode.{node}
use shark_platform.KvCache.TrieNode.Links.{SameLinks, SameLinks-WellLinked}
use shark_platform.KvCache.TrieNode.Weight.{linked-SameLinks}
use shark_platform.KvCache.Trie.{TrieCache, Allocation}
use shark_platform.KvCache.TrieMethods.{alloc_at, no_allocation, on_alloc, decref, release_pages}
use shark_platform.KvCache.TrieMethods.Held.{unpublished}
use shark_platform.KvCache.TrieMethods.Invariant.{
  Inv, holds, decrement_parts, decref-links, decref-count,
}

-- An allocation that is not released is one of the cache's.
pub alloc_inside :
    (s : TrieCache) (a : ℕ) → (alloc_at s a).is_released ≡ false → a < length s.allocations
alloc_inside s a h = ground (arith, get_or_outside s.allocations a no_allocation)

abbrev released : Allocation → Allocation
released x = record x { is_released = true }

module _ (a : ℕ) (s : TrieCache) (v : Inv s) (live : (alloc_at s a).is_released ≡ false) where
  abbrev last : ℕ
  last = (alloc_at s a).last_cached_node

  Inv-release : Inv (on_alloc a released (decref last s))
  Inv-release =
      let links : SameLinks s.nodes (decref last s).nodes = decref-links last s in
      let inside : a < length s.allocations = alloc_inside s a live in
      record {
        positive = v.positive;
        well = SameLinks-WellLinked links v.well;
        last_inside = λ b. ground (
          arith,
          links.size,
          get_or-set s.allocations a b (released (alloc_at s a)) no_allocation inside,
          v.last_inside a,
          v.last_inside b,
        );
        exclusive = λ p. omega (
          arith,
          v.exclusive p,
          linked-SameLinks links p,
          total-set (λ x. count p (unpublished x)) s.allocations a (released (alloc_at s a))
              no_allocation inside,
        );
        refs = λ i. ground (
          arith,
          decref-count last s (v.last_inside a) i,
          decrement_parts (node s.nodes i).ref_count,
          total-set (holds i) s.allocations a (released (alloc_at s a)) no_allocation inside,
          live,
          v.refs i,
        );
      }

pub release-Inv : (a : ℕ) (s : TrieCache) → Inv s → Inv (release_pages a s)
unfolding release_pages
release-Inv a s v = elim (Bool-cases (alloc_at s a).is_released) [
  | inl done ↦ rw done v
  | inr live ↦ rw live (Inv-release a s v live)
]
