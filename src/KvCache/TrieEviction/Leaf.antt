-- ===== src/KvCache/TrieEviction/Leaf.antt =====
-- One round of the eviction loop: what `evict_leaf` changes, whether it returns or raises.
use shark_platform.Prelude.{
  ℕ, ◌≡◌, refl, inl, inr, true, false, not, ◌&&◌, none, some, List, [], ◌∷◌, All, Option-cases,
  Bool-cases, ◌==◌, if◌then◌else◌,
}
use shark_platform.Prelude.Dict
use shark_platform.Prelude.Exec.{Error, Result, ok, err, key_error, attribute_error}
use shark_platform.KvCache.TrieNode.{Nodes, node, is_empty, unlink, unlink_from, detach}
use shark_platform.KvCache.Trie.{TrieCache, root, contains, add, discard}
use shark_platform.KvCache.TrieEviction.{
  Entry, entry, unlink_node, remove_leaf, promote, is_childless, evict_leaf,
}

-- What eviction does not touch.
pub record Rest (s t : TrieCache) : Type 0 where
  pub pool : t.page_pool ≡ s.page_pool
  pub page_size : t.tokens_per_page ≡ s.tokens_per_page
  pub allocations : t.allocations ≡ s.allocations

pub Rest-refl : (s : TrieCache) → Rest s s
Rest-refl s = record { pool = refl; page_size = refl; allocations = refl }

pub Rest-trans : {s t u : TrieCache} → Rest s t → Rest t u → Rest s u
Rest-trans f g = record {
  pool = cc (f.pool, g.pool);
  page_size = cc (f.page_size, g.page_size);
  allocations = cc (f.allocations, g.allocations);
}

-- An entry whose node nothing refers to.
abbrev pub IsUnused : Nodes → Entry → Type 0
IsUnused nodes e = is_empty (node nodes e.1).ref_count ≡ true

pub data LeafOutcome (leaf : ℕ) (s : TrieCache) (out : Result (List Entry) × TrieCache)
    : Type 0 where
  evicted :
      (parent : ℕ) (pushed : List Entry) (t : TrieCache)
      → (node s.nodes leaf).parent ≡ some parent
      → out ≡ (ok pushed, t)
      → t.nodes ≡ detach leaf parent s.nodes
      → Rest s t
      → All (IsUnused t.nodes) pushed
      → LeafOutcome leaf s out
  untouched :
      (e : Error) (t : TrieCache)
      → out ≡ (err e, t)
      → t.nodes ≡ s.nodes
      → Rest s t
      → LeafOutcome leaf s out
  half_way :
      (parent : ℕ) (e : Error) (t : TrieCache)
      → (node s.nodes leaf).parent ≡ some parent
      → out ≡ (err e, t)
      → t.nodes ≡ detach leaf parent s.nodes
      → Rest s t
      → LeafOutcome leaf s out

abbrev with_nodes : TrieCache → Nodes → TrieCache
with_nodes s nodes = record s { nodes = nodes }

module _ (leaf : ℕ) (s : TrieCache) where
  unlink_orphan : (node s.nodes leaf).parent ≡ none → unlink_node leaf s ≡ (ok tt, s)
  unfolding unlink_node unlink
  unlink_orphan e = rw (e, unlink_from)

  module _ {parent : ℕ} (e : (node s.nodes leaf).parent ≡ some parent) where
    unlink_missing :
        Dict.get (node s.nodes leaf).tokens (node s.nodes parent).children ≡ none
        → unlink_node leaf s ≡ (err key_error, s)
    unfolding unlink_node unlink
    unlink_missing g = rw (e, unlink_from, g)

    unlink_found :
        {child : ℕ}
        → Dict.get (node s.nodes leaf).tokens (node s.nodes parent).children ≡ some child
        → unlink_node leaf s ≡ (ok tt, with_nodes s (detach leaf parent s.nodes))
    unfolding unlink_node unlink
    unlink_found g = rw (e, unlink_from, g)

abbrev dropped : ℕ → TrieCache → TrieCache
dropped leaf s = record s { leaves = discard leaf s.leaves }

remove_found :
    (leaf : ℕ) (s : TrieCache)
    → contains leaf s.leaves ≡ true
    → remove_leaf leaf s ≡ (ok tt, dropped leaf s)
unfolding remove_leaf
remove_found leaf s h = rw h

remove_missing :
    (leaf : ℕ) (s : TrieCache)
    → contains leaf s.leaves ≡ false
    → remove_leaf leaf s ≡ (err key_error, s)
unfolding remove_leaf
remove_missing leaf s h = rw h

record Promoted (s : TrieCache) (out : Result (List Entry) × TrieCache) : Type 0 where
  pushed : List Entry
  after : TrieCache
  runs : out ≡ (ok pushed, after)
  nodes : after.nodes ≡ s.nodes
  rest : Rest s after
  unused : All (IsUnused s.nodes) pushed

-- The promotion of a parent pushes an unused node or none.
push_if_unused : Nodes → ℕ → List Entry
push_if_unused nodes i = if is_empty (node nodes i).ref_count then entry nodes i ∷ [] else []

push-IsUnused : (nodes : Nodes) (i : ℕ) → All (IsUnused nodes) (push_if_unused nodes i)
unfolding push_if_unused
push-IsUnused nodes i = elim (Bool-cases (is_empty (node nodes i).ref_count)) [
  | inl h ↦ rw h (h, tt)
  | inr h ↦ rw h tt
]

promote-Promoted : (parent : ℕ) (s : TrieCache) → Promoted s (promote (some parent) s)
unfolding promote push_if_unused
promote-Promoted parent s =
    elim (Bool-cases (not (parent == root) && is_childless (node s.nodes parent))) [
      | inl h ↦ record {
        pushed = push_if_unused s.nodes parent;
        after = record s { leaves = add parent s.leaves };
        runs = rw h;
        nodes = refl;
        rest = record { pool = refl; page_size = refl; allocations = refl };
        unused = push-IsUnused s.nodes parent;
      }
      | inr h ↦ record {
        pushed = [];
        after = s;
        runs = rw h;
        nodes = refl;
        rest = Rest-refl s;
        unused = tt;
      }
    ]

-- A node without a parent has no edge to remove; the round fails then, at the parent at the latest.
orphan_leaf :
    (leaf : ℕ) (s : TrieCache)
    → (node s.nodes leaf).parent ≡ none
    → LeafOutcome leaf s (evict_leaf leaf s)
unfolding evict_leaf promote
orphan_leaf leaf s e = elim (Bool-cases (contains leaf s.leaves)) [
  | inl there ↦
      untouched attribute_error (dropped leaf s)
        (rw (unlink_orphan leaf s e, remove_found leaf s there, e)) refl
        (record { pool = refl; page_size = refl; allocations = refl })
  | inr gone ↦
      untouched key_error s (rw (unlink_orphan leaf s e, remove_missing leaf s gone)) refl
        (Rest-refl s)
]

module _ (leaf parent : ℕ) (s : TrieCache) (e : (node s.nodes leaf).parent ≡ some parent) where
  abbrev unlinked : TrieCache
  unlinked = with_nodes s (detach leaf parent s.nodes)

  removed_leaf : unlink_node leaf s ≡ (ok tt, unlinked) → LeafOutcome leaf s (evict_leaf leaf s)
  unfolding evict_leaf
  removed_leaf run = elim (Bool-cases (contains leaf s.leaves)) [
    | inl there ↦
        let p : Promoted (dropped leaf unlinked) (promote (some parent) (dropped leaf unlinked)) =
          promote-Promoted parent (dropped leaf unlinked) in
        evicted parent p.pushed p.after e (rw (run, remove_found leaf unlinked there, e, p.runs))
          p.nodes
          (record {
            pool = p.rest.pool;
            page_size = p.rest.page_size;
            allocations = p.rest.allocations;
          })
          (rw p.nodes p.unused)
    | inr gone ↦
        half_way parent key_error unlinked e (rw (run, remove_missing leaf unlinked gone)) refl
          (record { pool = refl; page_size = refl; allocations = refl })
  ]

  linked_leaf : LeafOutcome leaf s (evict_leaf leaf s)
  unfolding evict_leaf
  linked_leaf =
      elim (Option-cases (Dict.get (node s.nodes leaf).tokens (node s.nodes parent).children)) [
        | inl g ↦ untouched key_error s (rw (unlink_missing leaf s e g)) refl (Rest-refl s)
        | inr (child, g) ↦ removed_leaf (unlink_found leaf s e g)
      ]

-- A round of the loop that returns has unlinked its leaf from a parent. One that raises has done so
-- too, or has left the nodes as they were. Pages, counts and allocations stay as they are.
pub evict_leaf-LeafOutcome : (leaf : ℕ) (s : TrieCache) → LeafOutcome leaf s (evict_leaf leaf s)
evict_leaf-LeafOutcome leaf s = elim (Option-cases (node s.nodes leaf).parent) [
  | inl e ↦ orphan_leaf leaf s e
  | inr (parent, e) ↦ linked_leaf leaf parent s e
]
