-- ===== src/KvCache/TrieMethods/Publish.antt =====
-- `publish_pages_for_tokens` keeps the invariant.
use shark_platform.Prelude.{
  ℕ, ◌+◌, ◌*◌, ◌/◌, ◌≤◌, ◌<◌, ◌≡◌, inl, inr, Bool, false, List, arith, length, take, drop, set,
  get_or-set, get_or-set_self, set-set, length-drop, length-drop-take-le, Bool-cases, ltb,
}
use shark_platform.Prelude.Count.{count, total-set}
use shark_platform.KvCache.TrieNode.{Nodes, node, increment}
use shark_platform.KvCache.TrieNode.Links.{
  SameLinks, SameLinks-refl, SameLinks-trans, SameLinks-WellLinked,
}
use shark_platform.KvCache.TrieNode.Weight.{linked-SameLinks}
use shark_platform.KvCache.Trie.{Runtime, TrieCache, Allocation, blocks}
use shark_platform.KvCache.Trie.Blocks.{blocks-Full}
use shark_platform.KvCache.TrieMethods.{
  agree, alloc_at, no_allocation, on_alloc, incref, decref, link_blocks, note_leaf, is_nil, publish,
  publish_pages_for_tokens,
}
use shark_platform.KvCache.TrieMethods.Held.{unpublished, count-slice}
use shark_platform.KvCache.TrieMethods.Invariant.{
  Inv, Covers, holders, holds, increment_parts, decrement_parts, incref-links, decref-links,
  incref-count, decref-count,
}
use shark_platform.KvCache.TrieMethods.Extend.{with_tokens-Inv}
use shark_platform.KvCache.TrieMethods.Link.{Attached, link_blocks-Attached}
use shark_platform.KvCache.TrieMethods.Release.{alloc_inside}

module _ (rt : Runtime) (a n : ℕ) (s : TrieCache) (v : Inv s)
    (live : (alloc_at s a).is_released ≡ false)
    (later : (alloc_at s a).number_of_published_pages ≤ n)
    (known : n * s.tokens_per_page ≤ length (alloc_at s a).tokens) where
  abbrev alloc : Allocation
  alloc = alloc_at s a

  abbrev done : ℕ
  done = alloc.number_of_published_pages

  abbrev fresh : List (List ℕ)
  fresh = blocks s.tokens_per_page (drop (done * s.tokens_per_page) alloc.tokens)

  abbrev pages : List ℕ
  pages = drop done (take n alloc.pages)

  abbrev linked_up : ℕ × TrieCache
  linked_up = link_blocks rt alloc.last_cached_node fresh pages s

  room : length pages * s.tokens_per_page ≤ length (drop (done * s.tokens_per_page) alloc.tokens)
  room = grind (
    arith,
    length-drop-take-le done n alloc.pages,
    length-drop (done * s.tokens_per_page) alloc.tokens,
  )

  attached : Attached pages s linked_up
  attached =
      let (enough, full) = blocks-Full s.tokens_per_page v.positive (length pages) _ room in
      link_blocks-Attached rt alloc.last_cached_node fresh pages s v.well (v.last_inside a) enough
        full

  abbrev cur : ℕ
  cur = linked_up.0

  abbrev chained : TrieCache
  chained = note_leaf cur linked_up.1

  inside : a < length s.allocations
  inside = alloc_inside s a live

  -- The allocation afterwards, when it ends at the node `i`.
  abbrev published : ℕ → Allocation
  published i = record alloc { last_cached_node = i; number_of_published_pages = n }

  private_after :
      (p i : ℕ) → count p (unpublished (published i)) + count p pages ≡ count p (unpublished alloc)
  private_after p i = omega (arith, count-slice p done n alloc.pages later)

  -- The invariant, for a state with the links of the chained one and counts that cover the holders.
  Inv-chained :
      (nodes : Nodes) (i : ℕ)
      → SameLinks linked_up.1.nodes nodes
      → i < length linked_up.1.nodes
      → ((j : ℕ) → Covers (holders j (set s.allocations a (published i))) (node nodes j).ref_count)
      → Inv (record chained { nodes = nodes; allocations = set s.allocations a (published i) })
  Inv-chained nodes i links h covers =
      let t : Attached pages s linked_up = attached in
      record {
        positive = rw t.page_size v.positive;
        well = rw t.page_size (SameLinks-WellLinked links t.well);
        last_inside = λ b. ground (
          arith,
          links.size,
          t.grows,
          get_or-set s.allocations a b (published i) no_allocation inside,
          v.last_inside b,
        );
        exclusive = λ p. rw t.pool (
            omega (
              arith,
              linked-SameLinks links p,
              t.added p,
              private_after p i,
              v.exclusive p,
              total-set (λ x. count p (unpublished x)) s.allocations a (published i) no_allocation
                  inside,
            ));
        refs = covers;
      }

  Inv-kept :
      Inv (record chained { allocations = set s.allocations a (published alloc.last_cached_node) })
  Inv-kept =
      let t : Attached pages s linked_up = attached in
      Inv-chained linked_up.1.nodes alloc.last_cached_node (SameLinks-refl _)
        (omega (arith, t.grows, v.last_inside a))
        λ j. ground (
          arith,
          t.counts j,
          v.refs j,
          total-set (holds j) s.allocations a (published alloc.last_cached_node) no_allocation
              inside,
        )

  abbrev moved : TrieCache
  moved = decref alloc.last_cached_node (incref cur chained)

  Inv-moved : Inv (record moved { allocations = set s.allocations a (published cur) })
  Inv-moved =
      let t : Attached pages s linked_up = attached in
      let up : SameLinks chained.nodes (incref cur chained).nodes = incref-links cur chained in
      let down : SameLinks (incref cur chained).nodes moved.nodes =
        decref-links alloc.last_cached_node (incref cur chained) in
      Inv-chained moved.nodes cur (SameLinks-trans up down) t.inside λ j. ground (
        arith,
        t.counts j,
        incref-count cur chained t.inside j,
        decref-count alloc.last_cached_node (incref cur chained)
            (omega (arith, up.size, t.grows, v.last_inside a)) j,
        increment_parts (node s.nodes j).ref_count,
        decrement_parts (increment (node s.nodes j).ref_count),
        decrement_parts (node s.nodes j).ref_count,
        live,
        v.refs j,
        total-set (holds j) s.allocations a (published cur) no_allocation inside,
      )

  publish-Inv : Inv (publish rt a n s)
  unfolding publish
  publish-Inv =
      let t : Attached pages s linked_up = attached in
      elim (Bool-cases (is_nil fresh)) [
        | inl nothing ↦ rw nothing (rw t.allocations Inv-kept)
        | inr some_blocks ↦
            rw
              (
                some_blocks,
                t.allocations,
                get_or-set_self s.allocations a (record alloc { last_cached_node = cur })
                    no_allocation inside,
                set-set s.allocations a (record alloc { last_cached_node = cur }) (published cur),
              )
              Inv-moved
      ]

module _ (rt : Runtime) (a : ℕ) (tokens : List ℕ) (incomplete : Bool) (s : TrieCache) (v : Inv s)
    (live : (alloc_at s a).is_released ≡ false)
    (later : (alloc_at s a).number_of_published_pages ≤ length tokens / s.tokens_per_page) where
  abbrev renamed : TrieCache
  renamed = on_alloc a (λ x. record x { tokens = tokens }) s

  present : a < length s.allocations
  present = alloc_inside s a live

  renamed_at : alloc_at renamed a ≡ record (alloc_at s a) { tokens = tokens }
  renamed_at = get_or-set_self s.allocations a _ no_allocation present

  Inv-renamed : Inv renamed
  Inv-renamed = with_tokens-Inv a s v present tokens

  fits : (m : ℕ) → length tokens ≤ m → length tokens / s.tokens_per_page * s.tokens_per_page ≤ m
  fits m h = grind arith

  pub publish_pages-Inv : Inv (publish_pages_for_tokens rt a tokens incomplete s).1
  unfolding publish_pages_for_tokens
  publish_pages-Inv = elim (Bool-cases (agree (alloc_at s a).tokens tokens)) [
    | inr differs ↦ rw differs v
    | inl agrees ↦ elim (Bool-cases (ltb (length (alloc_at s a).tokens) (length tokens))) [
      | inl longer ↦ elim (Bool-cases incomplete) [
        | inl b ↦ rw (agrees, longer, b) Inv-renamed
        | inr b ↦
            rw (agrees, longer, b)
              (publish-Inv rt a (length tokens / s.tokens_per_page) renamed Inv-renamed
                (rw renamed_at live) (rw renamed_at later) (rw renamed_at (fits _ (omega arith))))
      ]
      | inr shorter ↦ elim (Bool-cases incomplete) [
        | inl b ↦ rw (agrees, shorter, b) v
        | inr b ↦
            rw (agrees, shorter, b)
              (publish-Inv rt a (length tokens / s.tokens_per_page) s v live later
                (fits _ (ground arith)))
      ]
    ]
  ]
