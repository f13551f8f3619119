-- ===== src/KvCache/TrieEviction/Effect.antt =====
-- What a round of the eviction loop changes in the store, and what it spares.
use shark_platform.Prelude.{
  ℕ, ◌+◌, ◌<◌, ◌≡◌, ap, true, false, none, some, [], arith, length, get_or_outside, ◌==◌,
  if◌then◌else◌,
}
use shark_platform.KvCache.TrieNode.{Nodes, node, new_node, is_empty, detach}
use shark_platform.KvCache.TrieNode.Links.{
  WellLinked, node-detach, length-detach, detach-WellLinked,
}
use shark_platform.KvCache.TrieNode.Weight.{linked, linked-detach}
use shark_platform.KvCache.Trie.{TrieCache}
use shark_platform.KvCache.TrieEviction.Leaf.{Rest, Rest-trans}

-- Two states of the store with the same nodes, of which the second has the same links or fewer.
pub record Effect (s t : TrieCache) : Type 0 where
  pub linked_well : WellLinked s.tokens_per_page t.nodes
  pub rest : Rest s t
  pub size : length t.nodes ≡ length s.nodes
  pub counts : (i : ℕ) → (node t.nodes i).ref_count ≡ (node s.nodes i).ref_count
  -- a node that is referred to keeps its place
  pub spared :
      (i : ℕ)
      → is_empty (node s.nodes i).ref_count ≡ false
      → (node t.nodes i).parent ≡ (node s.nodes i).parent

pub Effect-trans : {s t u : TrieCache} → Effect s t → Effect t u → Effect s u
Effect-trans {s} {t} {u} f g = record {
  linked_well = rw (← f.rest.page_size) g.linked_well;
  rest = Rest-trans f.rest g.rest;
  size = cc (f.size, g.size);
  counts = λ i. cc (f.counts i, g.counts i);
  spared = λ i h. cc (f.spared i h, g.spared i (cc (f.counts i, h)));
}

pub Effect-same :
    {s t : TrieCache}
    → WellLinked s.tokens_per_page s.nodes
    → t.nodes ≡ s.nodes
    → Rest s t
    → Effect s t
Effect-same {s} {t} w e r = record {
  linked_well = rw e w;
  rest = r;
  size = ap length e;
  counts = λ i. rw e;
  spared = λ i h. rw e;
}

inside_of_parent : (nodes : Nodes) (i p : ℕ) → (node nodes i).parent ≡ some p → i < length nodes
inside_of_parent nodes i p e = ground (arith, get_or_outside nodes i (new_node [] 0 none 0))

module _ (leaf parent : ℕ) (s t : TrieCache) (e : (node s.nodes leaf).parent ≡ some parent)
    (moved : t.nodes ≡ detach leaf parent s.nodes) (r : Rest s t)
    (w : WellLinked s.tokens_per_page s.nodes)
    (unused : is_empty (node s.nodes leaf).ref_count ≡ true) where
  inside : leaf < length s.nodes
  inside = inside_of_parent s.nodes leaf parent e

  elder : parent < leaf
  elder = w.older leaf parent e

  pub Effect-detach : Effect s t
  Effect-detach = record {
    linked_well = rw moved (detach-WellLinked leaf parent s.nodes inside elder w e);
    rest = r;
    size = rw moved (length-detach leaf parent s.nodes inside elder);
    counts = λ i. rw moved (ground (arith, node-detach leaf parent s.nodes inside elder i));
    spared = λ i h. rw moved (ground (arith, node-detach leaf parent s.nodes inside elder i));
  }

  pub linked_after :
      (p : ℕ)
      → linked p t.nodes + (if (node s.nodes leaf).page == p then 1 else 0) ≡ linked p s.nodes
  linked_after p = rw moved (ground (arith, linked-detach leaf parent s.nodes inside elder p))
