-- ===== src/KvCache/TrieMethods.antt =====
-- The methods of `TriePagedAttentionCache` and of its allocations, kvcache/trie_attention_cache.py.
pub mod Held
pub mod NewPages
pub mod Invariant
pub mod Acquire
pub mod Release
pub mod Extend
pub mod Link
pub mod Publish
pub mod Run
pub mod Capacity
pub mod Edits
pub mod Growth
use shark_platform.Prelude.{
  ℕ, zero, suc, ◌+◌, ◌-◌, ◌*◌, ◌/◌, Bool, true, false, ◌&&◌, ◌||◌, not, Option, none, some, List,
  [], ◌∷◌, ◌++◌, length, get_or, set, take, drop, ltb, leb, ◌==◌, if◌then◌else◌,
}
use shark_platform.Prelude.Ceil.{ceil_div}
use shark_platform.Prelude.Exec.{
  Exec, Result, ok, err, pure, raise, update, ◌>>=◌, ◌>>◌, value_error, not_implemented,
  cache_allocation_failure,
}
use shark_platform.KvCache.PagePool.{PagePool, acquire_free_pages}
use shark_platform.KvCache.TrieNode.{TrieNode, create_child, increment, decrement}
use shark_platform.KvCache.Trie.{Runtime, TrieCache, Allocation, root, on_node, blocks, match, add}
use shark_platform.KvCache.TrieEviction.{evict_pages}

-- The loop of `has_common_prefix` and of `extend_allocation`: the lists agree as far as both go.
unfoldable pub agree : List ℕ → List ℕ → Bool
agree [] ys = true
agree (x ∷ xs) [] = true
agree (x ∷ xs) (y ∷ ys) = x == y && agree xs ys

-- What a reference to no allocation would read: no code follows one.
abbrev pub no_allocation : Allocation
no_allocation = record {
  tokens = [];
  last_cached_node = root;
  pages = [];
  number_of_published_pages = 0;
  is_released = true;
}

abbrev pub alloc_at : TrieCache → ℕ → Allocation
alloc_at s a = get_or s.allocations a no_allocation

-- a change of one allocation
abbrev pub on_alloc : ℕ → (Allocation → Allocation) → TrieCache → TrieCache
on_alloc a f s = record s { allocations = set s.allocations a (f (alloc_at s a)) }

-- The tokens of an extended or published allocation are the list that the caller gave, not a copy: the
-- generation that appends a token to its list appends it to the allocation's.
abbrev pub append_input_token : ℕ → ℕ → TrieCache → TrieCache
append_input_token a token = on_alloc a (λ x. record x { tokens = x.tokens ++ token ∷ [] })

abbrev pub incref : ℕ → TrieCache → TrieCache
incref i = on_node i (λ n. record n { ref_count = increment n.ref_count })

abbrev pub decref : ℕ → TrieCache → TrieCache
decref i = on_node i (λ n. record n { ref_count = decrement n.ref_count })

unfoldable pub pool_acquire : ℕ → Exec TrieCache (Option (List ℕ))
pool_acquire count s =
    let (r, pool) = acquire_free_pages count s.page_pool in (r, record s { page_pool = pool })

-- TriePagedAttentionCacheAllocation.__init__
abbrev pub allocation_of : List ℕ → ℕ → List ℕ → List ℕ → Allocation
allocation_of tokens last cached new = record {
  tokens = tokens;
  last_cached_node = last;
  pages = cached ++ new;
  number_of_published_pages = length cached;
  is_released = false;
}

-- The reference to the new allocation.
unfoldable pub new_allocation : List ℕ → ℕ → List ℕ → List ℕ → Exec TrieCache ℕ
new_allocation tokens last cached new s =
    pure (length s.allocations)
      (record s { allocations = s.allocations ++ allocation_of tokens last cached new ∷ [] })

-- The pages that the tokens and the extra slots want beyond the matched ones. The difference is
-- taken at 0 where the source's is negative; no page is asked for in either case.
abbrev pub empty_pages : ℕ → ℕ → ℕ → ℕ
empty_pages slots matched size = ceil_div (slots - matched * size) size

-- if cur_node is not self.cache.root: self.cache.leaves.add(cur_node)
abbrev pub note_leaf : ℕ → TrieCache → TrieCache
note_leaf cur s = record s { leaves = if cur == root then s.leaves else add cur s.leaves }

abbrev pub is_nil {ℓ} : {A : Type ℓ} → List A → Bool
is_nil [] = true
is_nil (x ∷ xs) = false

-- The references move from the last cached node to the new one.
abbrev pub move_reference : ℕ → ℕ → List (List ℕ) → TrieCache → TrieCache
move_reference a cur unpublished s =
    if is_nil unpublished
    then s
    else on_alloc a (λ x. record x { last_cached_node = cur })
        (decref (alloc_at s a).last_cached_node (incref cur s))

-- The pages that the tokens and the extra slots want beyond those of the allocation.
abbrev pub new_pages_needed : ℕ → ℕ → ℕ → ℕ
new_pages_needed slots current size = ceil_div slots size - current

or_fail : Option (List ℕ) → Exec TrieCache (List ℕ)
or_fail none = raise cache_allocation_failure
or_fail (some pages) = pure pages

module _ (rt : Runtime) where
  retry : ℕ → Option (List ℕ) → Exec TrieCache (List ℕ)
  unfolding or_fail ◌>>=◌
  retry count none s =
      (do
        evict_pages rt (count - length s.page_pool.available_pages)
        pages ← pool_acquire count
        or_fail pages)
        s
  retry count (some pages) s = pure pages s

  -- The request for new pages, with one eviction if it is refused; both methods make it.
  unfoldable pub new_pages : ℕ → Exec TrieCache (List ℕ)
  unfolding retry ◌>>=◌
  new_pages count = do pages ← pool_acquire count; retry count pages

  unfoldable pub acquire_pages_for_tokens : List ℕ → ℕ → Exec TrieCache ℕ
  unfolding new_allocation ◌>>=◌
  acquire_pages_for_tokens tokens extra_token_slots s =
      let (cur, matched, s') = match rt tokens s in
      (do
        pages ←
            new_pages
              (empty_pages (length tokens + extra_token_slots) (length matched) s.tokens_per_page)
        new_allocation tokens cur matched pages)
        (incref cur s')

  -- The loop that attaches a chain of new nodes below `cur`: the last node of the chain.
  unfoldable pub link_blocks : ℕ → List (List ℕ) → List ℕ → TrieCache → ℕ × TrieCache
  link_blocks cur [] pages s = (cur, s)
  link_blocks cur (block ∷ rest) [] s = (cur, s)
  link_blocks cur (block ∷ rest) (page ∷ pages) s =
      let (child, nodes) = create_child cur block page (rt.monotonic s.ticks) s.nodes in
      link_blocks child rest pages (record s { nodes = nodes; ticks = suc s.ticks })

  -- The body of `publish_pages_for_tokens` below the checks.
  unfoldable pub publish : ℕ → ℕ → TrieCache → TrieCache
  unfolding link_blocks
  publish a count s =
      let alloc = alloc_at s a in
      let done = alloc.number_of_published_pages in
      let unpublished = blocks s.tokens_per_page (drop (done * s.tokens_per_page) alloc.tokens) in
      let (cur, s') =
        link_blocks alloc.last_cached_node unpublished (drop done (take count alloc.pages)) s in
      on_alloc a (λ x. record x { number_of_published_pages = count })
        (move_reference a cur unpublished (note_leaf cur s'))

  unfoldable pub publish_pages_for_tokens : ℕ → List ℕ → Bool → Exec TrieCache (Unit {0})
  unfolding publish agree
  publish_pages_for_tokens a tokens publish_incomplete_page s =
      if not (agree (alloc_at s a).tokens tokens)
      then raise value_error s
      else let s' =
          if ltb (length (alloc_at s a).tokens) (length tokens)
          then on_alloc a (λ x. record x { tokens = tokens }) s
          else s in
        if publish_incomplete_page
        then raise not_implemented s'
        else pure tt (publish a (length tokens / s.tokens_per_page) s')

-- An allocation is released once.
unfoldable pub release_pages : ℕ → TrieCache → TrieCache
release_pages a s =
    if (alloc_at s a).is_released
    then s
    else on_alloc a (λ x. record x { is_released = true })
        (decref (alloc_at s a).last_cached_node s)

module _ (rt : Runtime) where
  unfoldable pub extend_allocation : ℕ → List ℕ → ℕ → Exec TrieCache (Unit {0})
  unfolding agree ◌>>=◌
  extend_allocation a tokens extra_token_slots s =
      if ltb (length tokens) (length (alloc_at s a).tokens)
      then raise value_error s
      else if not (agree (alloc_at s a).tokens tokens)
      then raise value_error s
      else if length tokens == length (alloc_at s a).tokens
      then pure tt s
      else let needed =
          new_pages_needed (length tokens + extra_token_slots) (length (alloc_at s a).pages)
            s.tokens_per_page in
        if needed == 0
        then pure tt (on_alloc a (λ x. record x { tokens = tokens }) s)
        else (do
          pages ← new_pages rt needed
          update (on_alloc a (λ x. record x { pages = x.pages ++ pages; tokens = tokens })))
            s
