-- ===== src/KvCache/TrieMethods/Acquire.antt =====
-- `acquire_pages_for_tokens` keeps the invariant, whether it returns or raises.
use shark_platform.Prelude.{
  ℕ, ◌+◌, ◌≤◌, ◌<◌, ◌≡◌, ap, List, [], ◌∷◌, ◌++◌, arith, length, get_or-append, ◌==◌, if◌then◌else◌,
}
use shark_platform.Prelude.Count.{count, total-append}
use shark_platform.KvCache.TrieNode.{node, increment}
use shark_platform.KvCache.TrieNode.Links.{
  WellLinked, SameLinks, SameLinks-trans, SameLinks-WellLinked,
}
use shark_platform.KvCache.TrieNode.Weight.{linked-SameLinks}
use shark_platform.KvCache.Trie.{Runtime, TrieCache, Allocation, root, blocks, match}
use shark_platform.KvCache.Trie.Match.{Matched, match-Matched}
use shark_platform.KvCache.TrieEviction.Evict.{Frame, free_or_linked}
use shark_platform.KvCache.TrieMethods.{
  no_allocation, incref, new_pages, allocation_of, acquire_pages_for_tokens, empty_pages,
}
use shark_platform.KvCache.TrieMethods.Held.{unpublished, drop-length-append}
use shark_platform.KvCache.TrieMethods.NewPages.{Request, served, denied, new_pages-Request}
use shark_platform.KvCache.TrieMethods.Invariant.{
  Inv, holds, increment_parts, chain_inside, incref-links, incref-count,
}

-- The state between the match and the request: the reference to `cur` is taken.
pub record Referred (s t : TrieCache) (cur : ℕ) : Type 0 where
  pub well : WellLinked s.tokens_per_page t.nodes
  pub page_size : t.tokens_per_page ≡ s.tokens_per_page
  pub allocations : t.allocations ≡ s.allocations
  inside : cur < length t.nodes
  size : length t.nodes ≡ length s.nodes
  same : (p : ℕ) → free_or_linked p t ≡ free_or_linked p s
  counts :
      (i : ℕ)
      → (node t.nodes i).ref_count
        ≡ (if cur == i then increment (node s.nodes i).ref_count else (node s.nodes i).ref_count)

module _ (rt : Runtime) (tokens : List ℕ) (s : TrieCache) (v : Inv s) where
  abbrev matched : ℕ × List ℕ × TrieCache
  matched = match rt tokens s

  abbrev referred : TrieCache
  referred = incref matched.0 matched.2

  pub match-Referred : Referred s referred matched.0
  match-Referred =
      let m : Matched rt root (blocks s.tokens_per_page tokens) s matched =
        match-Matched rt tokens s in
      let links : SameLinks s.nodes referred.nodes =
        SameLinks-trans m.touched.links (incref-links matched.0 matched.2) in
      let last : matched.0 < length s.nodes = chain_inside v.well root _ v.well.has_root m.found in
      record {
        well = SameLinks-WellLinked links v.well;
        page_size = m.touched.page_size;
        allocations = m.touched.allocations;
        inside = omega (arith, links.size);
        size = links.size;
        same = λ p. rw m.touched.pool (omega (arith, linked-SameLinks links p));
        counts = λ i. ground (
          arith,
          incref-count matched.0 matched.2 (omega (arith, m.touched.links.size)) i,
          m.touched.counts i,
        );
      }

  abbrev wanted : ℕ → ℕ
  wanted extra = empty_pages (length tokens + extra) (length matched.1) s.tokens_per_page

  -- The state with the new allocation.
  abbrev allocated : TrieCache → List ℕ → TrieCache
  allocated t pages = record t {
    allocations = t.allocations ++ allocation_of tokens matched.0 matched.1 pages ∷ [];
  }

  module _ (t : TrieCache) (f : Frame referred t) where
    Inv-denied : ((p : ℕ) → free_or_linked p t ≤ free_or_linked p referred) → Inv t
    Inv-denied kept =
        let r : Referred s referred matched.0 = match-Referred in
        record {
          positive = rw (f.page_size, r.page_size) v.positive;
          well = rw (f.page_size) f.linked_well;
          last_inside = λ a.
              rw (f.allocations, r.allocations) (omega (arith, f.size, r.size, v.last_inside a));
          exclusive = λ p.
              rw (f.allocations, r.allocations) (omega (arith, kept p, r.same p, v.exclusive p));
          refs = λ i.
              rw (f.allocations, r.allocations)
                (ground (
                  arith,
                  f.counts i,
                  r.counts i,
                  v.refs i,
                  increment_parts (node s.nodes i).ref_count,
                ));
        }

    Inv-served :
        (pages : List ℕ)
        → ((p : ℕ) → free_or_linked p t + count p pages ≡ free_or_linked p referred)
        → Inv (allocated t pages)
    Inv-served pages kept =
        let r : Referred s referred matched.0 = match-Referred in
        let new : Allocation = allocation_of tokens matched.0 matched.1 pages in
        record {
          positive = rw (f.page_size, r.page_size) v.positive;
          well = rw f.page_size f.linked_well;
          last_inside = λ a.
              rw (f.allocations, r.allocations, get_or-append s.allocations new a no_allocation)
                (ground (arith, f.size, r.size, r.inside, v.last_inside a));
          exclusive = λ p.
              rw (f.allocations, r.allocations)
                (omega (
                  arith,
                  kept p,
                  r.same p,
                  v.exclusive p,
                  total-append (λ x. count p (unpublished x)) s.allocations (new ∷ []),
                  ap (count p) (drop-length-append matched.1 pages),
                ));
          refs = λ i.
              rw (f.allocations, r.allocations, total-append (holds i) s.allocations (new ∷ []))
                (ground (
                  arith,
                  f.counts i,
                  r.counts i,
                  v.refs i,
                  increment_parts (node s.nodes i).ref_count,
                ));
        }

  acquired :
      (extra : ℕ)
      → Request rt (wanted extra) referred (new_pages rt (wanted extra) referred)
      → Inv (acquire_pages_for_tokens rt tokens extra s).1
  unfolding acquire_pages_for_tokens
  acquired extra (served pages t run _ kept f _) = rw run (Inv-served t f pages kept)
  acquired extra (denied e t run kept f _) = rw run (Inv-denied t f kept)

  pub acquire-Inv : (extra : ℕ) → Inv (acquire_pages_for_tokens rt tokens extra s).1
  acquire-Inv extra =
      let r : Referred s referred matched.0 = match-Referred in
      acquired extra (new_pages-Request rt (wanted extra) referred (rw r.page_size r.well))
