-- ===== src/KvCache/TrieMethods/Capacity.antt =====
-- What an acquired allocation is: how many pages it lists, which of them are published, and which may
-- stand twice among them.
use mathlib.Core.List.{flatten}
use shark_platform.Prelude.{
  ℕ, zero, suc, ◌+◌, ◌-◌, ◌*◌, ◌≤◌, ◌<◌, ◌≡◌, refl, sym, ap, ◌∙◌, ◌==◌, if◌then◌else◌, Option, none,
  drop, get_or, inl, inr, false, some, List, [], ◌∷◌, ◌++◌, arith, length, take, All,
  get_or-append_last, length-append, length-take, Option-cases,
}
use shark_platform.Prelude.Ceil.{le-ceil_div}
use shark_platform.Prelude.Dict
use shark_platform.Prelude.Exec.{Error, Result, ok, err}
use shark_platform.KvCache.TrieNode.{Nodes, node, new_node}
use shark_platform.KvCache.TrieNode.Links.{WellLinked, SameLinks, SameLinks-trans}
use shark_platform.KvCache.Trie.{Runtime, TrieCache, Allocation, root, blocks, match}
use shark_platform.KvCache.Trie.Blocks.{Full, flatten-blocks}
use shark_platform.KvCache.Trie.Match.{
  chain, chain-found, chain-missing, chain-SameLinks, extend_chain, Matched, match-Matched,
}
use shark_platform.KvCache.TrieMethods.{
  alloc_at, no_allocation, allocation_of, new_pages, acquire_pages_for_tokens, empty_pages, incref,
}
use shark_platform.KvCache.TrieMethods.NewPages.{
  Request, served, denied, Supply, from_pool, after_eviction, new_pages-Request,
}
use shark_platform.KvCache.TrieMethods.Held.{drop-length-append}
use shark_platform.KvCache.TrieEviction.Evict.{free_or_linked}
use shark_platform.KvCache.TrieNode.Weight.{one_if, weight, linked, linked-SameLinks}
use shark_platform.Prelude.Count.{count, count-append, total}
use shark_platform.KvCache.TrieMethods.Invariant.{Inv, extend_chain_last, incref-links}
use shark_platform.KvCache.TrieMethods.Acquire.{Referred, match-Referred}

-- The blocks of a path through a well-linked trie are full.
chain-Full :
    {size : ℕ} {nodes : Nodes} (w : WellLinked size nodes) (cur : ℕ) (bs : List (List ℕ)) {last : ℕ}
    {pages : List ℕ}
    → chain nodes cur bs ≡ some (last, pages)
    → All (Full size) bs
chain-Full w cur [] e = tt
chain-Full {nodes = nodes} w cur (b ∷ bs) e =
    elim (Option-cases (Dict.get b (node nodes cur).children)) [
      | inl g ↦ cc (chain-missing nodes cur b bs g)
      | inr (next, g) ↦
          let found : extend_chain (node nodes next).page (chain nodes next bs) ≡ some (_, _) =
            rw (chain-found nodes cur next b bs g) at e in
          ((w.edge cur next b g).full, chain-Full w next bs (extend_chain_last _ _ found).1)
    ]

length-flatten :
    (size : ℕ) (bs : List (List ℕ)) → All (Full size) bs → length (flatten bs) ≡ length bs * size
unfolding flatten
length-flatten size [] h = omega arith
length-flatten size (b ∷ bs) (h, hs) =
    grind (arith, length-append b (flatten bs), length-flatten size bs hs)

take-length-append : (xs ys : List ℕ) → take (length xs) (xs ++ ys) ≡ xs
take-length-append [] ys = refl
take-length-append (x ∷ xs) ys = ap (◌∷◌ x) (take-length-append xs ys)

total-drop {ℓ} :
    {A : Type ℓ} (f : A → ℕ) (xs : List A) (k : ℕ) (d : A)
    → k < length xs
    → total f (drop k xs) ≡ f (get_or xs k d) + total f (drop (suc k) xs)
total-drop f [] k d h = absurd (omega (arith, h))
total-drop f (x ∷ xs) zero d h = refl
total-drop f (x ∷ xs) (suc k) d h = total-drop f xs k d (omega (arith, h))

total-drop_le {ℓ} :
    {A : Type ℓ} (f : A → ℕ) (xs : List A) (a b : ℕ)
    → a ≤ b
    → total f (drop b xs) ≤ total f (drop a xs)
total-drop_le f [] zero zero h = omega arith
total-drop_le f [] zero (suc b) h = omega arith
total-drop_le f [] (suc a) zero h = omega arith
total-drop_le f [] (suc a) (suc b) h = omega arith
total-drop_le f (x ∷ xs) zero zero h = omega arith
total-drop_le f (x ∷ xs) zero (suc b) h = omega (arith, total-drop_le f xs zero b (omega arith))
total-drop_le f (x ∷ xs) (suc a) zero h = absurd (omega (arith, h))
total-drop_le f (x ∷ xs) (suc a) (suc b) h = total-drop_le f xs a b (omega (arith, h))

extend_chain_parts :
    (page : ℕ) (c : Option (ℕ × List ℕ)) {last : ℕ} {pages : List ℕ}
    → extend_chain page c ≡ some (last, pages)
    → (rest : List ℕ) × (c ≡ some (last, rest)) × (pages ≡ page ∷ rest)
extend_chain_parts page none e = cc
extend_chain_parts page (some (l, rest)) e = (rest, ground arith, ground arith)

-- A path goes to younger and younger nodes, so each page on it is that of another linked node.
count-chain :
    {size : ℕ} {nodes : Nodes} (w : WellLinked size nodes) (cur : ℕ) (bs : List (List ℕ)) {last : ℕ}
    {pages : List ℕ}
    → chain nodes cur bs ≡ some (last, pages)
    → (p : ℕ) → count p pages ≤ total (weight p) (drop (suc cur) nodes)
unfolding chain
count-chain w cur [] {last} {pages} e p = rw (sym (ap (pages_of last) e)) (omega arith)
  where
    pages_of : ℕ → Option (ℕ × List ℕ) → List ℕ
    pages_of l none = []
    pages_of l (some (m, ps)) = ps
count-chain {nodes = nodes} w cur (b ∷ bs) e p =
    elim (Option-cases (Dict.get b (node nodes cur).children)) [
      | inl g ↦ cc (chain-missing nodes cur b bs g)
      | inr (next, g) ↦
          let found : extend_chain (node nodes next).page (chain nodes next bs) ≡ some (_, _) =
            rw (chain-found nodes cur next b bs g) at e in
          let edge = w.edge cur next b g in
          let (rest, more, whole) = extend_chain_parts _ _ found in
          let rest_few : count p rest ≤ total (weight p) (drop (suc next) nodes) =
            count-chain w next bs more p in
          let here : total (weight p) (drop next nodes)
              ≡ weight p (node nodes next) + total (weight p) (drop (suc next) nodes) =
            total-drop (weight p) nodes next (new_node [] 0 none 0) edge.exists in
          let below : total (weight p) (drop next nodes) ≤ total (weight p) (drop (suc cur) nodes) =
            total-drop_le (weight p) nodes (suc cur) next (omega (arith, edge.younger)) in
          let weighs : weight p (node nodes next) ≡ (if (node nodes next).page == p then 1 else 0) =
            ap (λ o. one_if o (if (node nodes next).page == p then 1 else 0)) edge.back in
          rw whole (ground (arith, rest_few, here, below, weighs))
    ]

-- What stands behind the pages of a new allocation. If the pool had enough pages, no page stands twice
-- among them, and the trie still has the published ones. If not, only the new pages are known to be
-- distinct and in no node: the eviction may have taken pages of the prefix itself.
pub data Backed (tokens : List ℕ) (extra : ℕ) (s t : TrieCache) (x : Allocation) : Type 0 where
  without_eviction :
      empty_pages (length tokens + extra) x.number_of_published_pages s.tokens_per_page
        ≤ length s.page_pool.available_pages
      → ((p : ℕ) → count p x.pages ≤ 1)
      → chain t.nodes root (take x.number_of_published_pages (blocks s.tokens_per_page tokens))
        ≡ some (x.last_cached_node, take x.number_of_published_pages x.pages)
      → Backed tokens extra s t x
  with_eviction :
      length s.page_pool.available_pages
        < empty_pages (length tokens + extra) x.number_of_published_pages s.tokens_per_page
      → ((p : ℕ) → count p (drop x.number_of_published_pages x.pages) + linked p t.nodes ≤ 1)
      → Backed tokens extra s t x

pub data AcquireOutcome (tokens : List ℕ) (extra : ℕ) (s : TrieCache) (out : Result ℕ × TrieCache)
    : Type 0 where
  allocated :
      (a : ℕ) (t : TrieCache) (x : Allocation)
      → out ≡ (ok a, t)
      → alloc_at t a ≡ x
      → x.tokens ≡ tokens
      → x.is_released ≡ false
      → length tokens + extra ≤ length x.pages * s.tokens_per_page
      → chain s.nodes root (take x.number_of_published_pages (blocks s.tokens_per_page tokens))
        ≡ some (x.last_cached_node, take x.number_of_published_pages x.pages)
      → Backed tokens extra s t x
      → AcquireOutcome tokens extra s out
  failed :
      (e : Error) (t : TrieCache)
      → out ≡ (err e, t)
      → t.allocations ≡ s.allocations
      → AcquireOutcome tokens extra s out

module _ (rt : Runtime) (tokens : List ℕ) (s : TrieCache) (v : Inv s) where
  abbrev matched : ℕ × List ℕ × TrieCache
  matched = match rt tokens s

  the_match : Matched rt root (blocks s.tokens_per_page tokens) s matched
  the_match = match-Matched rt tokens s

  -- In a state that keeps the invariant, the full pages that `_match` returns hold together no more
  -- tokens than it is asked for.
  match-within : length matched.1 * s.tokens_per_page ≤ length tokens
  match-within =
      let bs : List (List ℕ) = take (length matched.1) (blocks s.tokens_per_page tokens) in
      omega (
        arith,
        length-flatten s.tokens_per_page bs (chain-Full v.well root bs the_match.found),
        ap length (flatten-blocks s.tokens_per_page v.positive (length matched.1) tokens),
        length-take (length matched.1 * s.tokens_per_page) tokens,
        ap (λ (k : ℕ). k * s.tokens_per_page)
            (length-take (length matched.1) (blocks s.tokens_per_page tokens)),
        ap (λ (k : ℕ). k * s.tokens_per_page) whole,
      )
    where
      whole : length (take (length matched.1) (blocks s.tokens_per_page tokens)) ≡ length matched.1
      whole = omega (
        arith,
        length-take (length matched.1) (blocks s.tokens_per_page tokens),
        the_match.within,
      )

  module _ (extra : ℕ) where
    abbrev wanted : ℕ
    wanted = empty_pages (length tokens + extra) (length matched.1) s.tokens_per_page

    abbrev made : List ℕ → Allocation
    made pages = allocation_of tokens matched.0 matched.1 pages

    abbrev with_new : TrieCache → List ℕ → TrieCache
    with_new t pages = record t { allocations = t.allocations ++ made pages ∷ [] }

    room :
        (pages : List ℕ)
        → length pages ≡ wanted
        → length tokens + extra ≤ length (matched.1 ++ pages) * s.tokens_per_page
    room pages n = grind (
      arith,
      length-append matched.1 pages,
      le-ceil_div (length tokens + extra - length matched.1 * s.tokens_per_page) s.tokens_per_page
          v.positive,
    )

    abbrev referred : TrieCache
    referred = incref matched.0 matched.2

    same_links : SameLinks s.nodes referred.nodes
    same_links = SameLinks-trans the_match.touched.links (incref-links matched.0 matched.2)

    cached_linked : (p : ℕ) → count p matched.1 ≤ linked p s.nodes
    cached_linked p = omega (
      arith,
      count-chain v.well root _ the_match.found p,
      total-drop_le (weight p) s.nodes 0 (suc root) (omega arith),
    )

    backed :
        (pages : List ℕ) (t : TrieCache)
        → ((p : ℕ) → free_or_linked p t + count p pages ≡ free_or_linked p referred)
        → Supply rt wanted referred t
        → Backed tokens extra s (with_new t pages) (made pages)
    backed pages t kept (from_pool few nodes) =
        without_eviction
          (omega (arith, few, ap (λ pool. length pool.available_pages) the_match.touched.pool))
          (λ p. omega (
            arith,
            count-append p matched.1 pages,
            kept p,
            ap (linked p) nodes,
            linked-SameLinks same_links p,
            cached_linked p,
            v.exclusive p,
            ap (λ pool. count p pool.available_pages) the_match.touched.pool,
          ))
          (rw (nodes, take-length-append matched.1 pages)
            (chain-SameLinks same_links root _ ∙ the_match.found))
    backed pages t kept (after_eviction m u few run _ nodes) =
        with_eviction
          (omega (arith, few, ap (λ pool. length pool.available_pages) the_match.touched.pool))
          (λ p. rw (drop-length-append matched.1 pages) (
            omega (
              arith,
              kept p,
              linked-SameLinks same_links p,
              v.exclusive p,
              ap (λ pool. count p pool.available_pages) the_match.touched.pool,
            )))

    outcome_of :
        Request rt wanted
          (incref matched.0 matched.2)
          (new_pages rt wanted (incref matched.0 matched.2))
        → AcquireOutcome tokens extra s (acquire_pages_for_tokens rt tokens extra s)
    unfolding acquire_pages_for_tokens
    outcome_of (served pages t run n kept f supply) =
        allocated (length t.allocations) (with_new t pages) (made pages) (rw run)
          (get_or-append_last t.allocations (made pages) no_allocation) refl refl (room pages n)
          (rw (take-length-append matched.1 pages) the_match.found) (backed pages t kept supply)
    outcome_of (denied e t run _ f _) =
        failed e t (rw run) (rw (f.allocations) the_match.touched.allocations)

    -- In a state that keeps the invariant, `acquire_pages_for_tokens` raises and adds no allocation,
    -- or returns a new unreleased allocation for these tokens. As many pages are listed as the tokens and
    -- the extra slots need, and the published ones are those that the trie had, before the call, on the
    -- way to the allocation's last cached node. If the pool had enough pages for the others, no page is
    -- listed twice, and the trie still has the published ones. If pages were evicted, the new pages are
    -- distinct and in no linked node, but one of them may be a page of the prefix.
    pub acquire-AcquireOutcome :
        AcquireOutcome tokens extra s (acquire_pages_for_tokens rt tokens extra s)
    acquire-AcquireOutcome =
        let r : Referred s (incref matched.0 matched.2) matched.0 = match-Referred rt tokens s v in
        outcome_of
          (new_pages-Request rt wanted (incref matched.0 matched.2) (rw r.page_size r.well))
