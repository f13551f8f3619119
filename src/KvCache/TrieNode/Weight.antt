-- ===== src/KvCache/TrieNode/Weight.antt =====
-- How often a page is held by the linked nodes of a store: those that have a parent.
use shark_platform.Prelude.{
  ℕ, ◌+◌, ◌<◌, ◌≡◌, ap, Option, none, some, List, [], ◌∷◌, ◌++◌, arith, length, set, length-append,
  length-set, get_or-set, ◌==◌, if◌then◌else◌,
}
use shark_platform.Prelude.Count.{total, total-append, total-set, total-pointwise}
use shark_platform.KvCache.TrieNode.{
  TrieNode, Nodes, node, new_node, with_child, without_child, orphan, create_child, detach,
}
use shark_platform.KvCache.TrieNode.Links.{SameLinks}

abbrev pub one_if {ℓ} : {A : Type ℓ} → Option A → ℕ → ℕ
one_if none n = 0
one_if (some a) n = n

abbrev pub weight : ℕ → TrieNode → ℕ
weight p n = one_if n.parent (if n.page == p then 1 else 0)

abbrev pub linked : ℕ → Nodes → ℕ
linked p = total (weight p)

abbrev absent : TrieNode
absent = new_node [] 0 none 0

pub linked-SameLinks : {xs ys : Nodes} → SameLinks xs ys → (p : ℕ) → linked p ys ≡ linked p xs
linked-SameLinks {xs} {ys} same p =
    total-pointwise (weight p) xs ys absent same.size (λ i. cc (same.parent i, same.page i))

module _ (self : ℕ) (tokens : List ℕ) (page now : ℕ) (nodes : Nodes)
    (inside : self < length nodes) where
  abbrev born : TrieNode
  born = new_node tokens page (some self) now

  abbrev grown : Nodes
  grown = nodes ++ born ∷ []

  -- A new child adds its page.
  pub linked-create_child :
      (p : ℕ)
      → linked p (create_child self tokens page now nodes).1
        ≡ linked p nodes + (if page == p then 1 else 0)
  unfolding create_child
  linked-create_child p = omega (
    arith,
    total-append (weight p) nodes (born ∷ []),
    total-set (weight p) grown self (with_child (node grown self) tokens (length nodes)) absent
        (omega (arith, length-append nodes (born ∷ []))),
  )

module _ (self parent : ℕ) (nodes : Nodes) (inside : self < length nodes)
    (before : parent < self) where
  abbrev deleted : Nodes
  deleted = set nodes parent (without_child (node nodes parent) (node nodes self).tokens)

  length-deleted : length deleted ≡ length nodes
  length-deleted =
      length-set nodes parent (without_child (node nodes parent) (node nodes self).tokens)

  node-deleted_self : node deleted self ≡ node nodes self
  node-deleted_self = ground (
    arith,
    get_or-set nodes parent self (without_child (node nodes parent) (node nodes self).tokens)
        absent,
  )

  -- An unlinking takes the node's page away, if the node was linked.
  pub linked-detach :
      (p : ℕ) → linked p (detach self parent nodes) + weight p (node nodes self) ≡ linked p nodes
  unfolding detach
  linked-detach p = omega (
    arith,
    ap (weight p) node-deleted_self,
    total-set (weight p) nodes parent (without_child (node nodes parent) (node nodes self).tokens)
        absent (omega arith),
    total-set (weight p) deleted self (orphan (node deleted self)) absent
        (omega (arith, length-deleted)),
  )
