-- ===== src/Examples/Findings.antt =====
-- Runs of the trie cache that show what its theorems leave room for. The pool has two pages of two
-- tokens; a prompt is published page by page.
use shark_platform.Prelude.{ℕ, ◌≡◌, refl, false, arith, List, [], ◌∷◌, ◌++◌}
use shark_platform.Prelude.Exec.{ok}
use shark_platform.KvCache.Trie.{TrieCache, match}
use shark_platform.KvCache.PagePool
use shark_platform.KvCache.TrieEviction.{evict_pages}
use shark_platform.KvCache.TrieMethods.{
  alloc_at, acquire_pages_for_tokens, publish_pages_for_tokens, extend_allocation,
  append_input_token,
}
use shark_platform.KvCache.TrieMethods.Run.{acquires, publishes, extends, Reach, here, next, start}
use shark_platform.Examples.Trie.{opened, runtime}

abbrev two_pages : TrieCache
two_pages = start runtime [] 2 2

abbrev block : List ℕ
block = 5 ∷ 6 ∷ []

abbrev prefix : List ℕ
prefix = block ++ 7 ∷ 8 ∷ []

abbrev acquired : TrieCache
acquired = (acquire_pages_for_tokens runtime block 0 two_pages).1

abbrev filed : TrieCache
filed = (publish_pages_for_tokens runtime 0 block false acquired).1

abbrev extended : TrieCache
extended = (extend_allocation runtime 0 prefix 0 filed).1

abbrev published : TrieCache
published = (publish_pages_for_tokens runtime 0 prefix false extended).1

-- Both pages of the prefix are cached, and its allocation is not released.
published-match : (match runtime prefix published).1 ≡ 1 ∷ 0 ∷ []
unfolding opened
published-match = refl

-- The history is one that the invariant is proved for.
Reach-published : Reach runtime two_pages published
unfolding opened
Reach-published =
    next
      (next (next (next here (acquires block 0)) (publishes 0 block false refl (omega arith)))
        (extends 0 prefix 0 (omega arith)))
      (publishes 0 prefix false refl (omega arith))

-- The node of the first block is unused, and still a leaf for the cache: it is evicted, and the prefix
-- is not found any more.
evicted-match : (match runtime prefix (evict_pages runtime 1 published).1).1 ≡ []
unfolding opened
evicted-match = refl

-- So an acquisition can get a page of the prefix that it shares as a new one.
page_twice :
    (alloc_at (acquire_pages_for_tokens runtime (prefix ++ 9 ∷ 10 ∷ []) 0 published).1 1).pages
    ≡ 1 ∷ 0 ∷ 1 ∷ []
unfolding opened PagePool.free_pages
page_twice = refl

-- After an extension the allocation's list is the caller's. A token that is appended to it comes with no
-- page, since the next extension finds lists of one length.
no_more_pages :
    extend_allocation runtime 0 (prefix ++ 9 ∷ []) 1 (append_input_token 0 9 extended)
    ≡ (ok tt, append_input_token 0 9 extended)
unfolding opened
no_more_pages = refl
