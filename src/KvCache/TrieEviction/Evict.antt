-- ===== src/KvCache/TrieEviction/Evict.antt =====
-- `_evict_pages` as a whole.
use shark_platform.Prelude.{
  ℕ, ◌+◌, ◌≤◌, ◌≡◌, refl, inl, inr, length-append, false, List, [], ◌∷◌, arith, length, All,
  Bool-cases,
}
use shark_platform.Prelude.Count.{count, count-append}
use shark_platform.Prelude.Exec.{Error, Result, ok, err}
use shark_platform.KvCache.PagePool.{free_pages}
use shark_platform.KvCache.TrieNode.{Nodes, node, is_empty}
use shark_platform.KvCache.TrieNode.Links.{WellLinked}
use shark_platform.KvCache.TrieNode.Weight.{linked}
use shark_platform.KvCache.Trie.{Runtime, TrieCache}
use shark_platform.KvCache.TrieEviction.{unused_leaves, evict_loop, evict_pages}
use shark_platform.KvCache.TrieEviction.Leaf.{IsUnused}
use shark_platform.KvCache.TrieEviction.Effect.{Effect}
use shark_platform.KvCache.TrieEviction.Loop.{LoopOutcome, returned, raised, evict_loop-LoopOutcome}

unused_leaves-IsUnused :
    (nodes : Nodes) (leaves : List ℕ) → All (IsUnused nodes) (unused_leaves nodes leaves)
unfolding unused_leaves
unused_leaves-IsUnused nodes [] = tt
unused_leaves-IsUnused nodes (i ∷ rest) = elim (Bool-cases (is_empty (node nodes i).ref_count)) [
  | inl h ↦ rw h (h, unused_leaves-IsUnused nodes rest)
  | inr h ↦ rw h (unused_leaves-IsUnused nodes rest)
]

-- What the methods that evict leave alone: the allocations and the reference counts, the trie's
-- good order, and the place of every node that is referred to.
pub record Frame (s t : TrieCache) : Type 0 where
  pub linked_well : WellLinked s.tokens_per_page t.nodes
  pub page_size : t.tokens_per_page ≡ s.tokens_per_page
  pub allocations : t.allocations ≡ s.allocations
  pub size : length t.nodes ≡ length s.nodes
  pub counts : (i : ℕ) → (node t.nodes i).ref_count ≡ (node s.nodes i).ref_count
  pub spared :
      (i : ℕ)
      → is_empty (node s.nodes i).ref_count ≡ false
      → (node t.nodes i).parent ≡ (node s.nodes i).parent

pub Frame-refl : (s : TrieCache) → WellLinked s.tokens_per_page s.nodes → Frame s s
Frame-refl s w = record {
  linked_well = w;
  page_size = refl;
  allocations = refl;
  size = refl;
  counts = λ i. refl;
  spared = λ i h. refl;
}

pub Frame-trans : {s t u : TrieCache} → Frame s t → Frame t u → Frame s u
Frame-trans f g = record {
  linked_well = rw (← f.page_size) g.linked_well;
  page_size = cc (f.page_size, g.page_size);
  allocations = cc (f.allocations, g.allocations);
  size = cc (f.size, g.size);
  counts = λ i. cc (f.counts i, g.counts i);
  spared = λ i h. cc (f.spared i h, g.spared i (cc (f.counts i, h)));
}

pub Effect-Frame :
    {s t u : TrieCache}
    → Effect s t
    → u.nodes ≡ t.nodes
    → u.tokens_per_page ≡ t.tokens_per_page
    → u.allocations ≡ t.allocations
    → Frame s u
Effect-Frame {s} {t} {u} f e p a = record {
  linked_well = rw e f.linked_well;
  page_size = cc (p, f.rest.page_size);
  allocations = cc (a, f.rest.allocations);
  size = rw e f.size;
  counts = λ i. rw e (f.counts i);
  spared = λ i h. rw e (f.spared i h);
}

-- The pages that are free or held by linked nodes.
abbrev pub free_or_linked : ℕ → TrieCache → ℕ
free_or_linked p s = count p s.page_pool.available_pages + linked p s.nodes

pub data EvictOutcome (max_pages : ℕ) (s : TrieCache) (out : Result ℕ × TrieCache) : Type 0 where
  evicted :
      (n : ℕ) (t : TrieCache)
      → out ≡ (ok n, t)
      → n ≤ max_pages
      → length t.page_pool.available_pages ≡ length s.page_pool.available_pages + n
      → ((p : ℕ) → free_or_linked p t ≡ free_or_linked p s)
      → Frame s t
      → EvictOutcome max_pages s out
  failed :
      (e : Error) (t : TrieCache)
      → out ≡ (err e, t)
      → ((p : ℕ) → free_or_linked p t ≤ free_or_linked p s)
      → Frame s t
      → EvictOutcome max_pages s out

module _ (rt : Runtime) (max_pages : ℕ) (s : TrieCache) where
  evict_outcome :
      LoopOutcome max_pages s (evict_loop rt max_pages (unused_leaves s.nodes s.leaves) s)
      → EvictOutcome max_pages s (evict_pages rt max_pages s)
  unfolding evict_pages free_pages
  evict_outcome (returned pages t run f kept few) =
      evicted (length pages) (record t { page_pool = free_pages pages t.page_pool }) (rw run) few
        (rw f.rest.pool (length-append s.page_pool.available_pages pages))
        (λ p.
          rw f.rest.pool (omega (arith, count-append p s.page_pool.available_pages pages, kept p)))
        (Effect-Frame f refl refl refl)
  evict_outcome (raised e t run f kept) =
      failed e t (rw run) (λ p. rw f.rest.pool (omega (arith, kept p)))
        (Effect-Frame f refl refl refl)

  -- `_evict_pages` on a well-linked trie. If it returns `n`, then `n` is at most `max_pages`, the pool
  -- has `n` free pages more, and every page is free or linked as often as before: none is lost and
  -- none is freed twice. If it raises, no page is free or linked more often than before. In both
  -- cases the trie is well linked, no allocation or reference count changes, and a node that is
  -- referred to keeps its parent.
  pub evict_pages-EvictOutcome :
      WellLinked s.tokens_per_page s.nodes → EvictOutcome max_pages s (evict_pages rt max_pages s)
  evict_pages-EvictOutcome w = evict_outcome (
      evict_loop-LoopOutcome rt max_pages (unused_leaves s.nodes s.leaves) s w
        (unused_leaves-IsUnused s.nodes s.leaves))
