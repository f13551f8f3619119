-- ===== src/Examples/Trie.antt =====
-- A trie cache over four pages of two tokens: one prompt of five tokens is acquired and published.
use shark_platform.Prelude.{ℕ, ◌≡◌, refl, false, some, List, [], ◌∷◌, arith, list_eq}
use shark_platform.Prelude.Ceil.{ceil_div}
use shark_platform.Prelude.Int.{◌+ℤ◌, ◌-ℤ◌}
use shark_platform.Prelude.Dict
use shark_platform.KvCache.PagePool
use shark_platform.KvCache.PagePool.{acquire_free_pages}
use shark_platform.KvCache.TrieNode.{
  node, create_child, unlink, detach, is_empty, increment, decrement,
}
use shark_platform.KvCache.Trie.{Runtime, TrieCache, root, blocks, match, add, contains, discard}
use shark_platform.KvCache.Trie.Match.{Matched, match-Matched}
use shark_platform.KvCache.TrieEviction.{
  evict_pages, evict_loop, evict_leaf, unlink_node, remove_leaf, promote, unused_leaves, heappop,
  before,
}
use shark_platform.KvCache.TrieEviction.Evict.{EvictOutcome, evict_pages-EvictOutcome}
use shark_platform.KvCache.TrieMethods.{
  alloc_at, pool_acquire, extend_allocation, new_pages, acquire_pages_for_tokens,
  publish_pages_for_tokens, release_pages,
}
use shark_platform.KvCache.TrieMethods.Invariant.{Inv}
use shark_platform.KvCache.TrieMethods.Run.{
  acquires, publishes, Reach, here, next, start, history-Inv, Spared, evict-spares_live,
}
use shark_platform.KvCache.TrieMethods.Capacity.{AcquireOutcome, acquire-AcquireOutcome}

-- Opens what the tests compute with.
unfoldable pub opened : Unit {0}
unfolding acquire_pages_for_tokens publish_pages_for_tokens match blocks new_pages pool_acquire
    acquire_free_pages evict_pages evict_loop evict_leaf unlink_node unlink detach remove_leaf
    promote contains discard unused_leaves heappop before release_pages extend_allocation is_empty
    increment decrement ◌+ℤ◌ ◌-ℤ◌ create_child PagePool.init Dict.get Dict.put Dict.remove list_eq
    ceil_div add
opened = tt

abbrev pub runtime : Runtime
runtime = record { monotonic = λ n. n; id = λ n. n }

abbrev pub empty_cache : TrieCache
empty_cache = start runtime [] 4 2

abbrev pub prompt : List ℕ
prompt = 5 ∷ 6 ∷ 7 ∷ 8 ∷ 9 ∷ []

abbrev pub acquired : TrieCache
acquired = (acquire_pages_for_tokens runtime prompt 0 empty_cache).1

abbrev shared : TrieCache
shared = (publish_pages_for_tokens runtime 0 prompt false acquired).1

-- The prompt takes three pages, and the publication files the two full ones.
three_pages : (alloc_at acquired 0).pages ≡ 3 ∷ 2 ∷ 1 ∷ []
unfolding opened
three_pages = refl

shared-match : (match runtime prompt shared).1 ≡ 3 ∷ 2 ∷ []
unfolding opened
shared-match = refl

Reach-shared : Reach runtime empty_cache shared
unfolding opened
Reach-shared = next (next here (acquires prompt 0)) (publishes 0 prompt false refl (omega arith))

history-Inv_example : Inv shared
history-Inv_example = history-Inv runtime [] 4 2 (omega arith) Reach-shared

is_live : (alloc_at shared 0).is_released ≡ false
unfolding opened
is_live = refl

has_parent : (node shared.nodes (alloc_at shared 0).last_cached_node).parent ≡ some 1
unfolding opened
has_parent = refl

evict-spares_live_example :
    Spared 1 (alloc_at shared 0).last_cached_node (evict_pages runtime 4 shared).1
evict-spares_live_example =
    evict-spares_live runtime [] 4 2 (omega arith) 0 4 1 Reach-shared is_live has_parent

invariant : Inv shared
invariant = history-Inv runtime [] 4 2 (omega arith) Reach-shared

acquire-AcquireOutcome_example :
    AcquireOutcome prompt 1 shared (acquire_pages_for_tokens runtime prompt 1 shared)
acquire-AcquireOutcome_example = acquire-AcquireOutcome runtime prompt shared invariant 1

evict_pages-EvictOutcome_example : EvictOutcome 3 shared (evict_pages runtime 3 shared)
evict_pages-EvictOutcome_example = evict_pages-EvictOutcome runtime 3 shared invariant.well

match-Matched_example :
    Matched runtime root (blocks shared.tokens_per_page prompt) shared (match runtime prompt shared)
match-Matched_example = match-Matched runtime prompt shared
