-- ===== src/KvCache/TrieMethods/Run.antt =====
-- Histories of method calls on one trie cache and its allocations.
use shark_platform.Prelude.{
  ℕ, zero, suc, ◌/◌, ◌≤◌, ◌<◌, ◌≡◌, refl, Bool, false, none, some, ap, ◌∙◌, List, [], ◌∷◌, ◌++◌,
  arith, length, ◌==◌, if◌then◌else◌,
}
use shark_platform.Prelude.Count.{count, get_or-le-total}
use shark_platform.KvCache.TrieNode.Weight.{one_if, weight}
use shark_platform.Prelude.Exec.{ok}
use shark_platform.Prelude.Dict
use shark_platform.KvCache.PagePool
use shark_platform.KvCache.PagePool.{PagePool, PageTable, range_from}
use shark_platform.KvCache.PagePool.Acquire.{count-range}
use shark_platform.KvCache.TrieNode.{node, new_node, is_empty}
use shark_platform.KvCache.Trie
use shark_platform.KvCache.Trie.{Runtime, TrieCache, Allocation}
use shark_platform.KvCache.TrieEviction.{evict_pages}
use shark_platform.KvCache.TrieEviction.Evict.{
  EvictOutcome, evicted, failed, evict_pages-EvictOutcome, free_or_linked, Frame,
}
use shark_platform.KvCache.TrieMethods.{
  alloc_at, no_allocation, acquire_pages_for_tokens, publish_pages_for_tokens, extend_allocation,
  release_pages, append_input_token,
}
use shark_platform.KvCache.TrieMethods.Invariant.{Inv, holders, holds, Covers-not_empty}
use shark_platform.KvCache.TrieMethods.Acquire.{acquire-Inv}
use shark_platform.KvCache.TrieMethods.Release.{release-Inv, alloc_inside}
use shark_platform.KvCache.TrieMethods.Extend.{extend-Inv, with_tokens-Inv}
use shark_platform.KvCache.TrieMethods.Publish.{publish_pages-Inv}

-- A call that the clients of the cache make; one that raises leaves its effects behind.
pub data Step (rt : Runtime) (s : TrieCache) : TrieCache → Type 0 where
  acquires :
      (tokens : List ℕ) (extra : ℕ) → Step rt s (acquire_pages_for_tokens rt tokens extra s).1
  -- an unreleased allocation is published for no fewer pages than before
  publishes :
      (a : ℕ) (tokens : List ℕ) (incomplete : Bool)
      → (alloc_at s a).is_released ≡ false
      → (alloc_at s a).number_of_published_pages ≤ length tokens / s.tokens_per_page
      → Step rt s (publish_pages_for_tokens rt a tokens incomplete s).1
  extends :
      (a : ℕ) (tokens : List ℕ) (extra : ℕ)
      → a < length s.allocations
      → Step rt s (extend_allocation rt a tokens extra s).1
  -- the caller appends a token to its list, which is that of the allocation
  appends : (a token : ℕ) → a < length s.allocations → Step rt s (append_input_token a token s)
  releases : (a : ℕ) → Step rt s (release_pages a s)

pub data Reach (rt : Runtime) (s : TrieCache) : TrieCache → Type 0 where
  here : Reach rt s s
  next : {t u : TrieCache} → Reach rt s t → Step rt t u → Reach rt s u

Step-Inv : {rt : Runtime} {s t : TrieCache} → Step rt s t → Inv s → Inv t
Step-Inv {rt} {s} (acquires tokens extra) v = acquire-Inv rt tokens s v extra
Step-Inv {rt} {s} (publishes a tokens incomplete live later) v =
    publish_pages-Inv rt a tokens incomplete s v live later
Step-Inv {rt} {s} (extends a tokens extra inside) v = extend-Inv rt a tokens extra s v inside
Step-Inv {rt} {s} (appends a token inside) v =
    with_tokens-Inv a s v inside ((alloc_at s a).tokens ++ token ∷ [])
Step-Inv {rt} {s} (releases a) v = release-Inv a s v

Reach-Inv : {rt : Runtime} {s t : TrieCache} → Inv s → Reach rt s t → Inv t
Reach-Inv v here = v
Reach-Inv v (next r st) = Step-Inv st (Reach-Inv v r)

-- The state that the constructors of the pool and of the cache leave.
abbrev pub start : Runtime → List PageTable → ℕ → ℕ → TrieCache
start rt tables pages size = record {
  page_pool = PagePool.init tables pages;
  tokens_per_page = size;
  nodes = new_node [] 0 none (rt.monotonic 0) ∷ [];
  leaves = [];
  allocations = [];
  ticks = 1;
}

start_lem :
    (rt : Runtime) (tables : List PageTable) (pages size : ℕ)
    → 0 < size
    → Trie.init rt (PagePool.init tables pages) size ≡ ok (start rt tables pages size)
unfolding Trie.init
start_lem rt tables pages size h = ground arith

-- A store of one node has no edge and no reference.
lone :
    (now i : ℕ)
    → node (new_node [] 0 none now ∷ []) i ≡ new_node [] 0 none (if i == 0 then now else 0)
lone now zero = refl
lone now (suc i) = ground arith

pub start-Inv :
    (rt : Runtime) (tables : List PageTable) (pages size : ℕ)
    → 0 < size
    → Inv (start rt tables pages size)
unfolding PagePool.init
start-Inv rt tables pages size h = record {
  positive = h;
  well = record {
    has_root = omega arith;
    edge = λ n c k e. cc (lone (rt.monotonic 0) n, Dict.get-nil {V = ℕ} k);
    older = λ i p e. cc (lone (rt.monotonic 0) i);
  };
  last_inside = λ a. omega arith;
  exclusive = λ p. omega (arith, (count-range p 0 pages).1);
  refs = λ i. rw (lone (rt.monotonic 0) i) (omega arith);
}

-- The node has this parent, and its page is not free.
abbrev pub Spared : ℕ → ℕ → TrieCache → Type 0
Spared p i s =
    ((node s.nodes i).parent ≡ some p)
    × (count (node s.nodes i).page s.page_pool.available_pages ≡ 0)

-- A page that is free or linked once at most is not free while a node with a parent holds it.
not_free :
    (p i : ℕ) (s : TrieCache)
    → (node s.nodes i).parent ≡ some p
    → i < length s.nodes
    → ((q : ℕ) → free_or_linked q s ≤ 1)
    → count (node s.nodes i).page s.page_pool.available_pages ≡ 0
not_free p i s child inside once =
    let q : ℕ = (node s.nodes i).page in
    let weighs : weight q (node s.nodes i) ≡ 1 =
      ap (λ o. one_if o (if q == q then 1 else 0)) child ∙ ground arith in
    omega
      (arith, once q, weighs, get_or-le-total (weight q) s.nodes i (new_node [] 0 none 0) inside)

module _ (rt : Runtime) (tables : List PageTable) (pages size : ℕ) (positive : 0 < size) where
  -- Where a page holds a token at least: from the constructors on, after any calls of the four methods,
  -- whether they returned or raised, a publication being for an unreleased allocation and for no fewer
  -- pages than it has published:
  -- the trie is well linked, no page is twice among the free pages, the pages of linked nodes and the
  -- unpublished pages of the allocations, and the reference count of every node covers the unreleased
  -- allocations that end at it.
  pub history-Inv : {t : TrieCache} → Reach rt (start rt tables pages size) t → Inv t
  history-Inv = Reach-Inv (start-Inv rt tables pages size positive)

  -- In every state that a history of method calls reaches from the constructors, where a page holds a
  -- token at least and a publication is for an unreleased allocation and for no fewer pages than it has
  -- published: if the last cached node of an unreleased allocation has a parent, then an eviction of any
  -- size, whether it returns or raises, leaves it this parent, and its page is not among the free pages
  -- afterwards. Nothing is said of the parent itself, which may be evicted.
  pub evict-spares_live :
      {t : TrieCache} (a max_pages p : ℕ)
      → Reach rt (start rt tables pages size) t
      → (alloc_at t a).is_released ≡ false
      → (node t.nodes (alloc_at t a).last_cached_node).parent ≡ some p
      → Spared p (alloc_at t a).last_cached_node (evict_pages rt max_pages t).1
  evict-spares_live {t} a max_pages p r live child =
      spared (evict_pages-EvictOutcome rt max_pages t v.well)
    where
      v : Inv t
      v = history-Inv r

      last : ℕ
      last = (alloc_at t a).last_cached_node

      held_once : 0 < holders last t.allocations
      held_once = ground (
        arith,
        get_or-le-total (holds last) t.allocations a no_allocation (alloc_inside t a live),
        live,
      )

      used : is_empty (node t.nodes last).ref_count ≡ false
      used = Covers-not_empty _ _ held_once (v.refs last)

      kept :
          (u : TrieCache)
          → ((q : ℕ) → free_or_linked q u ≤ free_or_linked q t)
          → Frame t u
          → Spared p last u
      kept u few f =
          let same : (node u.nodes last).parent ≡ some p = f.spared last used ∙ child in
          (
            same,
            not_free p last u same (omega (arith, f.size, v.last_inside a))
                (λ q. omega (arith, few q, v.exclusive q)),
          )

      spared :
          EvictOutcome max_pages t (evict_pages rt max_pages t)
          → Spared p last (evict_pages rt max_pages t).1
      spared (evicted n u run _ _ few f) = rw run (kept u (λ q. omega (arith, few q)) f)
      spared (failed e u run few f) = rw run (kept u few f)
