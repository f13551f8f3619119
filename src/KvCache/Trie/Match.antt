-- ===== src/KvCache/Trie/Match.antt =====
-- `_match`: the longest cached prefix. The trie is seen as a partial function from the blocks of a
-- prefix to the node that they lead to and the pages on the way.
use shark_platform.Prelude.{
  ℕ, suc, ◌≤◌, ◌≡◌, refl, ap, ◌⊎◌, inl, inr, Option, none, some, List, [], ◌∷◌, arith, length, take,
  get_or-set_cases, Option-cases,
}
use shark_platform.Prelude.Dict
use shark_platform.KvCache.TrieNode.{TrieNode, Nodes, node, new_node}
use shark_platform.KvCache.TrieNode.Links.{
  SameLinks, SameLinks-refl, SameLinks-trans, SameLinks-set,
}
use shark_platform.KvCache.Trie.{Runtime, TrieCache, root, touch, blocks, match_blocks, match}

abbrev pub extend_chain : ℕ → Option (ℕ × List ℕ) → Option (ℕ × List ℕ)
extend_chain page none = none
extend_chain page (some (last, pages)) = some (last, page ∷ pages)

-- The node that a path of blocks leads to from `cur`, and the pages of the nodes on it.
unfoldable pub chain : Nodes → ℕ → List (List ℕ) → Option (ℕ × List ℕ)
chain nodes cur [] = some (cur, [])
chain nodes cur (block ∷ rest) = elim (Dict.get block (node nodes cur).children) [
  | none ↦ none
  | some next ↦ extend_chain (node nodes next).page (chain nodes next rest)
]

pub chain-found :
    (nodes : Nodes) (cur next : ℕ) (b : List ℕ) (bs : List (List ℕ))
    → Dict.get b (node nodes cur).children ≡ some next
    → chain nodes cur (b ∷ bs) ≡ extend_chain (node nodes next).page (chain nodes next bs)
unfolding chain
chain-found nodes cur next b bs e = rw (e, chain)

pub chain-missing :
    (nodes : Nodes) (cur : ℕ) (b : List ℕ) (bs : List (List ℕ))
    → Dict.get b (node nodes cur).children ≡ none
    → chain nodes cur (b ∷ bs) ≡ none
unfolding chain
chain-missing nodes cur b bs e = rw (e, chain)

pub chain-SameLinks :
    {xs ys : Nodes} (same : SameLinks xs ys) (cur : ℕ) (bs : List (List ℕ))
    → chain ys cur bs ≡ chain xs cur bs
unfolding chain
chain-SameLinks same cur [] = refl
chain-SameLinks {xs} {ys} same cur (b ∷ bs) =
    elim (Option-cases (Dict.get b (node xs cur).children)) [
      | inl e ↦ cc (chain-missing xs cur b bs e, chain-missing ys cur b bs (rw same.children e))
      | inr (next, e) ↦ cc (
        chain-found xs cur next b bs e,
        chain-found ys cur next b bs (rw same.children e),
        same.page next,
        chain-SameLinks same next bs,
      )
    ]

-- States that differ in access times and readings of the clock alone.
pub record Touched (s t : TrieCache) : Type 0 where
  pub links : SameLinks s.nodes t.nodes
  pub counts : (i : ℕ) → (node t.nodes i).ref_count ≡ (node s.nodes i).ref_count
  pub pool : t.page_pool ≡ s.page_pool
  pub page_size : t.tokens_per_page ≡ s.tokens_per_page
  pub leaves : t.leaves ≡ s.leaves
  pub allocations : t.allocations ≡ s.allocations

pub Touched-refl : (s : TrieCache) → Touched s s
Touched-refl s = record {
  links = SameLinks-refl s.nodes;
  counts = λ i. refl;
  pool = refl;
  page_size = refl;
  leaves = refl;
  allocations = refl;
}

Touched-trans : {s t u : TrieCache} → Touched s t → Touched t u → Touched s u
Touched-trans f g = record {
  links = SameLinks-trans f.links g.links;
  counts = λ i. cc (f.counts i, g.counts i);
  pool = cc (f.pool, g.pool);
  page_size = cc (f.page_size, g.page_size);
  leaves = cc (f.leaves, g.leaves);
  allocations = cc (f.allocations, g.allocations);
}

module _ (rt : Runtime) where
  abbrev touched_node : ℕ → TrieCache → TrieNode
  touched_node i s = record (node s.nodes i) { access_time = rt.monotonic s.ticks }

  touch-Touched : (i : ℕ) (s : TrieCache) → Touched s (touch rt i s)
  touch-Touched i s = record {
    links = SameLinks-set s.nodes i _ refl refl refl refl;
    counts =
        λ j. ground (arith, get_or-set_cases s.nodes i j (touched_node i s) (new_node [] 0 none 0));
    pool = refl;
    page_size = refl;
    leaves = refl;
    allocations = refl;
  }

  -- The outcome of a walk from `cur` along `bs`.
  pub record Matched (cur : ℕ) (bs : List (List ℕ)) (s : TrieCache) (out : ℕ × List ℕ × TrieCache)
      : Type 0 where
    pub within : length out.1 ≤ length bs
    pub found : chain s.nodes cur (take (length out.1) bs) ≡ some (out.0, out.1)
    pub longest :
        (length out.1 ≡ length bs) ⊎ (chain s.nodes cur (take (suc (length out.1)) bs) ≡ none)
    pub touched : Touched s out.2

  -- One edge before a walk that ends well.
  Matched-step :
      (cur next : ℕ) (b : List ℕ) (bs : List (List ℕ)) (s : TrieCache)
      (out : ℕ × List ℕ × TrieCache)
      → Dict.get b (node s.nodes cur).children ≡ some next
      → Matched next bs (touch rt next s) out
      → Matched cur (b ∷ bs) s (out.0, (node s.nodes next).page ∷ out.1, out.2)
  Matched-step cur next b bs s out e m =
      let same : SameLinks s.nodes (touch rt next s).nodes = (touch-Touched next s).links in
      record {
        within = omega (arith, m.within);
        found = cc (
          chain-found s.nodes cur next b (take (length out.1) bs) e,
          chain-SameLinks same next (take (length out.1) bs),
          m.found,
        );
        longest = elim m.longest [
          | inl whole ↦ inl (ap suc whole)
          | inr stop ↦ inr (
              cc (
                chain-found s.nodes cur next b (take (suc (length out.1)) bs) e,
                chain-SameLinks same next (take (suc (length out.1)) bs),
                stop,
              ))
        ];
        touched = Touched-trans (touch-Touched next s) m.touched;
      }

  match_blocks-Matched :
      (cur : ℕ) (bs : List (List ℕ)) (s : TrieCache) → Matched cur bs s (match_blocks rt cur bs s)
  unfolding match_blocks chain
  match_blocks-Matched cur [] s = record {
    within = omega arith;
    found = refl;
    longest = inl refl;
    touched = Touched-refl s;
  }
  match_blocks-Matched cur (b ∷ bs) s =
      elim (Option-cases (Dict.get b (node s.nodes cur).children)) [
        | inl e ↦
            rw (e, match_blocks)
              (record {
                within = omega arith;
                found = refl;
                longest = inr (chain-missing s.nodes cur b [] e);
                touched = Touched-refl s;
              })
        | inr (next, e) ↦
            rw (e, match_blocks)
              (Matched-step cur next b bs s _ e (match_blocks-Matched next bs (touch rt next s)))
      ]

  -- `_match` returns the longest prefix of the token blocks that the trie has: the node and the
  -- pages that this prefix leads to. One block more leads nowhere. Nothing but access times changes.
  pub match-Matched :
      (tokens : List ℕ) (s : TrieCache)
      → Matched root (blocks s.tokens_per_page tokens) s (match rt tokens s)
  unfolding match
  match-Matched tokens s = match_blocks-Matched root (blocks s.tokens_per_page tokens) s
