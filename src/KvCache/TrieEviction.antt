-- ===== src/KvCache/TrieEviction.antt =====
-- `_evict_pages` of kvcache/trie_attention_cache.py. The heap of `heapq` is a list from which the
-- least entry is taken: entries are pairs of an access time and a node, compared as Python compares
-- tuples, with `TrieNode.__lt__` on nodes of one age.
pub mod Leaf
pub mod Effect
pub mod Loop
pub mod Evict
use shark_platform.Prelude.{
  ℕ, zero, suc, Bool, true, false, ◌&&◌, ◌||◌, not, Option, none, some, List, [], ◌∷◌, ◌++◌, length,
  ltb, ◌==◌, if◌then◌else◌,
}
use shark_platform.Prelude.Exec.{
  Exec, Result, ok, err, pure, raise, update, ◌>>=◌, ◌>>◌, key_error, attribute_error,
}
use shark_platform.KvCache.PagePool.{free_pages}
use shark_platform.KvCache.TrieNode.{TrieNode, Nodes, node, unlink, is_empty}
use shark_platform.KvCache.Trie.{Runtime, TrieCache, root, add, contains, discard}

abbrev pub Entry : Type 0
Entry = ℕ × ℕ

-- (leaf.access_time, leaf)
abbrev pub entry : Nodes → ℕ → Entry
entry nodes i = ((node nodes i).access_time, i)

-- [(leaf.access_time, leaf) for leaf in self.leaves if leaf.ref_count.is_empty()]
unfoldable pub unused_leaves : Nodes → List ℕ → List Entry
unused_leaves nodes [] = []
unused_leaves nodes (leaf ∷ rest) =
    let more = unused_leaves nodes rest in
    if is_empty (node nodes leaf).ref_count then entry nodes leaf ∷ more else more

module _ (rt : Runtime) where
  unfoldable pub before : Entry → Entry → Bool
  before (time, i) (time', j) = ltb time time' || time == time' && ltb (rt.id i) (rt.id j)

  -- The least of an entry and a list, and the others.
  unfoldable pub least : Entry → List Entry → Entry × List Entry
  least e [] = (e, [])
  least e (x ∷ xs) =
      let less = before x e in
      let (first, others) = least (if less then x else e) xs in
      (first, (if less then e else x) ∷ others)

  unfoldable pub heappop : List Entry → Option (Entry × List Entry)
  unfolding least
  heappop [] = none
  heappop (e ∷ es) = some (least e es)

-- leaf.unlink()
unfoldable pub unlink_node : ℕ → Exec TrieCache (Unit {0})
unlink_node i s = let (r, nodes) = unlink i s.nodes in (r, record s { nodes = nodes })

-- self.leaves.remove(leaf)
unfoldable pub remove_leaf : ℕ → Exec TrieCache (Unit {0})
remove_leaf i s =
    if contains i s.leaves
    then pure tt (record s { leaves = discard i s.leaves })
    else raise key_error s

abbrev pub is_childless : TrieNode → Bool
is_childless n = elim n.children [ [] ↦ true | _ ↦ false ]

-- The parent of an evicted leaf: what is pushed on the heap. `None.children` raises.
unfoldable pub promote : Option ℕ → Exec TrieCache (List Entry)
promote none s = raise attribute_error s
promote (some parent) s =
    if not (parent == root) && is_childless (node s.nodes parent)
    then pure (if is_empty (node s.nodes parent).ref_count then entry s.nodes parent ∷ [] else [])
        (record s { leaves = add parent s.leaves })
    else pure [] s

-- One round of the loop after `heappop`.
unfoldable pub evict_leaf : ℕ → Exec TrieCache (List Entry)
unfolding ◌>>=◌
evict_leaf leaf s = (do unlink_node leaf; remove_leaf leaf; promote (node s.nodes leaf).parent) s

module _ (rt : Runtime) where
  -- The loop, with `remaining = max_pages - len(pages_to_evict)`.
  unfoldable pub evict_loop : ℕ → List Entry → Exec TrieCache (List ℕ)
  evict_loop zero heap s = pure [] s
  evict_loop (suc remaining) heap s = elim (heappop rt heap) [
    | none ↦ pure [] s
    | some ((time, leaf), rest) ↦
        (do
          pushed ← evict_leaf leaf
          pages ← evict_loop remaining (pushed ++ rest)
          pure ((node s.nodes leaf).page ∷ pages))
          s
  ]

  -- Freeing no page is what the source skips.
  unfoldable pub evict_pages : ℕ → Exec TrieCache ℕ
  unfolding ◌>>=◌
  evict_pages max_pages s =
      (do
        pages ← evict_loop max_pages (unused_leaves s.nodes s.leaves)
        update (λ t. record t { page_pool = free_pages pages t.page_pool })
        pure (length pages))
        s
