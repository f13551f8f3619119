-- ===== src/KvCache/TrieMethods/Link.antt =====
-- The loop of `publish_pages_for_tokens` that attaches a chain of new nodes.
use shark_platform.Prelude.{
  ℕ, suc, ◌+◌, ◌≤◌, ◌<◌, ◌≡◌, refl, none, List, [], ◌∷◌, arith, length, take, All, get_or_outside,
}
use shark_platform.Prelude.Count.{count}
use shark_platform.KvCache.TrieNode.{Nodes, node, new_node, create_child}
use shark_platform.KvCache.TrieNode.Links.{
  WellLinked, node-create_child, length-create_child, create_child-WellLinked,
}
use shark_platform.KvCache.TrieNode.Weight.{linked, linked-create_child}
use shark_platform.KvCache.Trie.{Runtime, TrieCache}
use shark_platform.KvCache.Trie.Blocks.{Full}
use shark_platform.KvCache.TrieMethods.{link_blocks}

-- What the loop does to the state `s` with the pages `ps`: the new nodes hold them.
pub record Attached (ps : List ℕ) (s : TrieCache) (out : ℕ × TrieCache) : Type 0 where
  pub well : WellLinked s.tokens_per_page out.1.nodes
  pub page_size : out.1.tokens_per_page ≡ s.tokens_per_page
  pub pool : out.1.page_pool ≡ s.page_pool
  pub leaves : out.1.leaves ≡ s.leaves
  pub allocations : out.1.allocations ≡ s.allocations
  pub inside : out.0 < length out.1.nodes
  pub grows : length s.nodes ≤ length out.1.nodes
  pub added : (p : ℕ) → linked p out.1.nodes ≡ linked p s.nodes + count p ps
  pub counts : (i : ℕ) → (node out.1.nodes i).ref_count ≡ (node s.nodes i).ref_count

Attached-nil :
    (cur : ℕ) (s : TrieCache)
    → WellLinked s.tokens_per_page s.nodes
    → cur < length s.nodes
    → Attached [] s (cur, s)
Attached-nil cur s w h = record {
  well = w;
  page_size = refl;
  pool = refl;
  leaves = refl;
  allocations = refl;
  inside = h;
  grows = omega arith;
  added = λ p. omega arith;
  counts = λ i. refl;
}

module _ (rt : Runtime) where
  pub link_blocks-Attached :
      (cur : ℕ) (bs : List (List ℕ)) (ps : List ℕ) (s : TrieCache)
      → WellLinked s.tokens_per_page s.nodes
      → cur < length s.nodes
      → length ps ≤ length bs
      → All (Full s.tokens_per_page) (take (length ps) bs)
      → Attached ps s (link_blocks rt cur bs ps s)
  unfolding link_blocks create_child
  link_blocks-Attached cur [] [] s w h n full = Attached-nil cur s w h
  link_blocks-Attached cur [] (p ∷ ps) s w h n full = absurd (omega arith)
  link_blocks-Attached cur (b ∷ bs) [] s w h n full = Attached-nil cur s w h
  link_blocks-Attached cur (b ∷ bs) (p ∷ ps) s w h n (f, fs) =
      let now = rt.monotonic s.ticks in
      let nodes : Nodes = (create_child cur b p now s.nodes).1 in
      let t : TrieCache = record s { nodes = nodes; ticks = suc s.ticks } in
      let size : length nodes ≡ suc (length s.nodes) = length-create_child cur b p now s.nodes h in
      let rest : Attached ps t (link_blocks rt (length s.nodes) bs ps t) =
        link_blocks-Attached (length s.nodes) bs ps t
          (create_child-WellLinked cur b p now s.nodes h f w) (omega arith) (omega arith) fs in
      record {
        well = rest.well;
        page_size = rest.page_size;
        pool = rest.pool;
        leaves = rest.leaves;
        allocations = rest.allocations;
        inside = rest.inside;
        grows = omega (arith, rest.grows, size);
        added = λ q. omega (arith, rest.added q, linked-create_child cur b p now s.nodes h q);
        counts = λ i. ground (
          arith,
          rest.counts i,
          node-create_child cur b p now s.nodes h i,
          get_or_outside s.nodes i (new_node [] 0 none 0),
        );
      }
