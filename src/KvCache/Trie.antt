-- ===== src/KvCache/Trie.antt =====
-- `TriePagedAttentionCache` and `TriePagedAttentionCacheAllocation` of
-- kvcache/trie_attention_cache.py. The state holds the cache, its nodes and the allocations that it
-- has handed out; nodes and allocations are named by their indices. `Runtime` is what Python gives
-- to the code: `time.monotonic()` at each reading, and `id` of a node, which orders nodes of one age.
pub mod Blocks
pub mod Match
use shark_platform.Prelude.{
  ℕ, zero, suc, ◌+◌, ◌-◌, ◌*◌, ◌/◌, Bool, true, false, ◌&&◌, ◌||◌, not, Option, none, some, List,
  [], ◌∷◌, ◌++◌, map, length, get_or, set, take, drop, ltb, leb, ◌==◌, if◌then◌else◌,
}
use shark_platform.Prelude.Ceil.{ceil_div}
use shark_platform.Prelude.Dict
use shark_platform.Prelude.Exec.{
  Exec, Result, ok, err, pure, raise, update, ◌>>=◌, ◌>>◌, value_error, not_implemented, key_error,
  attribute_error, cache_allocation_failure,
}
use shark_platform.KvCache.PagePool.{PagePool, acquire_free_pages, free_pages}
use shark_platform.KvCache.TrieNode.{
  TrieNode, Nodes, node, new_node, create_child, unlink, increment, decrement, is_empty,
}

pub record Runtime : Type 0 where
  pub monotonic : ℕ → ℕ
  pub id : ℕ → ℕ

pub record Allocation : Type 0 where
  pub tokens : List ℕ
  pub last_cached_node : ℕ
  pub pages : List ℕ
  pub number_of_published_pages : ℕ
  pub is_released : Bool

pub record TrieCache : Type 0 where
  pub page_pool : PagePool
  pub tokens_per_page : ℕ
  pub nodes : Nodes
  pub leaves : List ℕ
  pub allocations : List Allocation
  -- how often the clock has been read
  pub ticks : ℕ

-- `self.root`: the node that `__init__` creates, the first of the store.
abbrev pub root : ℕ
root = 0

module _ (rt : Runtime) where
  unfoldable pub init : PagePool → ℕ → Result TrieCache
  init pool tokens_per_page =
      if tokens_per_page == 0
      then err value_error
      else ok (record {
        page_pool = pool;
        tokens_per_page = tokens_per_page;
        nodes = new_node [] 0 none (rt.monotonic 0) ∷ [];
        leaves = [];
        allocations = [];
        ticks = 1;
      })

-- [tokens[i : i + size] for i in range(0, len(tokens), size)], one round for each block at most
blocks_fuel : ℕ → ℕ → List ℕ → List (List ℕ)
blocks_fuel zero size tokens = []
blocks_fuel (suc rounds) size [] = []
blocks_fuel (suc rounds) size (t ∷ ts) =
    take size (t ∷ ts) ∷ blocks_fuel rounds size (drop size (t ∷ ts))

unfoldable pub blocks : ℕ → List ℕ → List (List ℕ)
unfolding blocks_fuel
blocks size tokens = blocks_fuel (length tokens) size tokens

-- a change of one node
abbrev pub on_node : ℕ → (TrieNode → TrieNode) → TrieCache → TrieCache
on_node i f s = record s { nodes = set s.nodes i (f (node s.nodes i)) }

-- set.add and set.remove, whose `KeyError` `discard` leaves to its caller
unfoldable pub add : ℕ → List ℕ → List ℕ
add x [] = x ∷ []
add x (y ∷ ys) = if x == y then y ∷ ys else y ∷ add x ys

unfoldable pub contains : ℕ → List ℕ → Bool
contains x [] = false
contains x (y ∷ ys) = x == y || contains x ys

unfoldable pub discard : ℕ → List ℕ → List ℕ
discard x [] = []
discard x (y ∷ ys) = if x == y then ys else y ∷ discard x ys

module _ (rt : Runtime) where
  -- cur.access_time = time.monotonic()
  abbrev pub touch : ℕ → TrieCache → TrieCache
  touch i s = record (on_node i (λ n. record n { access_time = rt.monotonic s.ticks }) s) {
    ticks = suc s.ticks;
  }

  -- The loop of `_match` from the node `cur`: the last node, the matched pages, the state.
  unfoldable pub match_blocks : ℕ → List (List ℕ) → TrieCache → ℕ × List ℕ × TrieCache
  match_blocks cur [] s = (cur, [], s)
  match_blocks cur (block ∷ rest) s = elim (Dict.get block (node s.nodes cur).children) [
    | none ↦ (cur, [], s)
    | some next ↦
        let (last, pages, s') = match_blocks next rest (touch next s) in
        (last, (node s.nodes next).page ∷ pages, s')
  ]

  unfoldable pub match : List ℕ → TrieCache → ℕ × List ℕ × TrieCache
  unfolding match_blocks
  match tokens s = match_blocks root (blocks s.tokens_per_page tokens) s
