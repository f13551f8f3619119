-- ===== src/KvCache/TrieMethods/Invariant.antt =====
-- The invariant of the trie cache together with the allocations that it has handed out.
use shark_platform.Prelude.{
  ℕ, ◌+◌, ◌≤◌, ◌<◌, ◌≡◌, refl, false, Option, none, some, List, [], ◌∷◌, arith, length, get_or-set,
  inl, inr, Option-cases, ◌==◌, if◌then◌else◌,
}
use shark_platform.Prelude.Int.{ℤ, pos, pos_part, neg_part, +ℤ_parts, -ℤ_parts}
use shark_platform.Prelude.Count.{total}
use shark_platform.Prelude.Dict
use shark_platform.KvCache.TrieNode.{
  TrieNode, Nodes, node, new_node, increment, decrement, is_empty,
}
use shark_platform.KvCache.TrieNode.Links.{WellLinked, SameLinks, SameLinks-set}
use shark_platform.KvCache.Trie.{TrieCache, Allocation}
use shark_platform.KvCache.Trie.Match.{chain, chain-found, chain-missing, extend_chain}
use shark_platform.KvCache.TrieMethods.{alloc_at, incref, decref}
use shark_platform.KvCache.TrieMethods.Held.{held}

-- 1 for an allocation that is not released and whose last cached node is `i`
abbrev pub holds : ℕ → Allocation → ℕ
holds i a = if a.is_released then 0 else if a.last_cached_node == i then 1 else 0

abbrev pub holders : ℕ → List Allocation → ℕ
holders i = total (holds i)

-- The reference count of a node covers the allocations that end at it.
abbrev pub Covers : ℕ → ℤ → Type 0
Covers n count = n + neg_part count ≤ pos_part count

pub record Inv (s : TrieCache) : Type 0 where
  pub positive : 0 < s.tokens_per_page
  pub well : WellLinked s.tokens_per_page s.nodes
  pub last_inside : (a : ℕ) → (alloc_at s a).last_cached_node < length s.nodes
  pub exclusive : (p : ℕ) → held p s ≤ 1
  pub refs : (i : ℕ) → Covers (holders i s.allocations) (node s.nodes i).ref_count

pub increment_parts :
    (n : ℤ) → pos_part (increment n) + neg_part n ≡ neg_part (increment n) + pos_part n + 1
unfolding increment
increment_parts n = omega (arith, +ℤ_parts n (pos 1))

pub decrement_parts :
    (n : ℤ) → pos_part (decrement n) + neg_part n + 1 ≡ neg_part (decrement n) + pos_part n
unfolding decrement
decrement_parts n = omega (arith, -ℤ_parts n (pos 1))

-- A node that an allocation ends at is not unused.
pub Covers-not_empty : (n : ℕ) (count : ℤ) → 0 < n → Covers n count → is_empty count ≡ false
unfolding is_empty
Covers-not_empty n count h c = ground arith

pub extend_chain_last :
    (page : ℕ) (c : Option (ℕ × List ℕ)) {last : ℕ} {pages : List ℕ}
    → extend_chain page c ≡ some (last, pages)
    → (rest : List ℕ) × (c ≡ some (last, rest))
extend_chain_last page none e = cc
extend_chain_last page (some (l, rest)) e = (rest, ground arith)

-- A walk through the trie ends at a node of the store.
pub chain_inside :
    {size : ℕ} {nodes : Nodes} (w : WellLinked size nodes) (cur : ℕ) (bs : List (List ℕ)) {last : ℕ}
    {pages : List ℕ}
    → cur < length nodes
    → chain nodes cur bs ≡ some (last, pages)
    → last < length nodes
unfolding chain
chain_inside w cur [] h e = ground arith
chain_inside {nodes = nodes} w cur (b ∷ bs) h e =
    elim (Option-cases (Dict.get b (node nodes cur).children)) [
      | inl g ↦ cc (chain-missing nodes cur b bs g)
      | inr (next, g) ↦
          let found : extend_chain (node nodes next).page (chain nodes next bs) ≡ some (_, _) =
            rw (chain-found nodes cur next b bs g) at e in
          chain_inside w next bs (w.edge cur next b g).exists (extend_chain_last _ _ found).1
    ]

-- incref and decref change one count and no link.
module _ (i : ℕ) (s : TrieCache) where
  pub incref-links : SameLinks s.nodes (incref i s).nodes
  incref-links = SameLinks-set s.nodes i _ refl refl refl refl

  pub decref-links : SameLinks s.nodes (decref i s).nodes
  decref-links = SameLinks-set s.nodes i _ refl refl refl refl

  abbrev changed : (ℤ → ℤ) → TrieNode
  changed f = record (node s.nodes i) { ref_count = f (node s.nodes i).ref_count }

  module _ (inside : i < length s.nodes) (j : ℕ) where
    pub incref-count :
        (node (incref i s).nodes j).ref_count
        ≡ (if i == j then increment (node s.nodes j).ref_count else (node s.nodes j).ref_count)
    incref-count = ground (arith, get_or-set s.nodes i j (changed increment) (new_node [] 0 none 0))

    pub decref-count :
        (node (decref i s).nodes j).ref_count
        ≡ (if i == j then decrement (node s.nodes j).ref_count else (node s.nodes j).ref_count)
    decref-count = ground (arith, get_or-set s.nodes i j (changed decrement) (new_node [] 0 none 0))
