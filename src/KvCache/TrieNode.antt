-- ===== src/KvCache/TrieNode.antt =====
-- `RefCount` and `TrieNode` of kvcache/trie_attention_cache.py. Nodes are mutable objects that point
-- at one another, so they stand in a store, and a reference to a node is its index there.
pub mod Links
pub mod Weight
use shark_platform.Prelude.{
  ℕ, zero, suc, Bool, Option, none, some, List, [], ◌∷◌, ◌++◌, length, get_or, set,
}
use shark_platform.Prelude.Int.{ℤ, pos, ◌+ℤ◌, ◌-ℤ◌, leb_ℤ}
use shark_platform.Prelude.Dict
use shark_platform.Prelude.Exec.{Exec, pure, raise, key_error}

-- RefCount: `count` may fall below 0.
unfoldable pub increment : ℤ → ℤ
increment count = count +ℤ pos 1

unfoldable pub decrement : ℤ → ℤ
decrement count = count -ℤ pos 1

unfoldable pub is_empty : ℤ → Bool
is_empty count = leb_ℤ count (pos 0)

pub record TrieNode : Type 0 where
  pub tokens : List ℕ
  pub page : ℕ
  pub children : List (List ℕ × ℕ)
  pub parent : Option ℕ
  pub ref_count : ℤ
  pub access_time : ℕ

-- TrieNode(tokens, page, parent=parent) at the time `now`, with `__post_init__`
abbrev pub new_node : List ℕ → ℕ → Option ℕ → ℕ → TrieNode
new_node tokens page parent now = record {
  tokens = tokens;
  page = page;
  children = [];
  parent = parent;
  ref_count = pos 0;
  access_time = now;
}

abbrev pub Nodes : Type 0
Nodes = List TrieNode

-- The node that a reference leads to. No reference dangles.
abbrev pub node : Nodes → ℕ → TrieNode
node nodes i = get_or nodes i (new_node [] 0 none 0)

abbrev pub with_child : TrieNode → List ℕ → ℕ → TrieNode
with_child n tokens child = record n { children = Dict.put tokens child n.children }

abbrev pub without_child : TrieNode → List ℕ → TrieNode
without_child n tokens = record n { children = Dict.remove tokens n.children }

abbrev pub orphan : TrieNode → TrieNode
orphan n = record n { parent = none }

-- `self.create_child(tokens, page)`: the reference to the new node, and the store.
unfoldable pub create_child : ℕ → List ℕ → ℕ → ℕ → Nodes → ℕ × Nodes
create_child self tokens page now nodes =
    let grown = nodes ++ new_node tokens page (some self) now ∷ [] in
    (length nodes, set grown self (with_child (node grown self) tokens (length nodes)))

-- The store after `del self.parent.children[self.tokens]; self.parent = None`.
unfoldable pub detach : ℕ → ℕ → Nodes → Nodes
detach self parent nodes =
    let deleted = set nodes parent (without_child (node nodes parent) (node nodes self).tokens) in
    set deleted self (orphan (node deleted self))

unfoldable pub unlink_from : ℕ → Option ℕ → Exec Nodes (Unit {0})
unlink_from self none nodes = pure tt nodes
unlink_from self (some parent) nodes =
    elim (Dict.get (node nodes self).tokens (node nodes parent).children) [
      | none ↦ raise key_error nodes
      | some child ↦ pure tt (detach self parent nodes)
    ]

unfoldable pub unlink : ℕ → Exec Nodes (Unit {0})
unfolding unlink_from
unlink self nodes = unlink_from self (node nodes self).parent nodes
