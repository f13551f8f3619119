-- ===== src/Serving/TrieServing.antt =====
-- The batcher of service.py over the trie cache, with the executors that publish pages and the
-- generations that release them. Each turn is one call, and all share one cache.
use shark_platform.Prelude.{
  ℕ, ◌*◌, ◌/◌, ◌≤◌, ◌<◌, ◌≡◌, refl, sym, ap, ◌∙◌, Bool, false, some, List, [], ◌∷◌, ◌++◌, arith,
  length, All,
}
use mathlib.Core.List.{Permᴰ}
use native.Mathlib.Nat.{mul-le-mul_left}
use shark_platform.Prelude.Exec.{Result, ok, ok-value}
use shark_platform.KvCache.PagePool.{PageTable}
use shark_platform.KvCache.Trie.{Runtime, TrieCache}
use shark_platform.KvCache.TrieMethods.{
  alloc_at, acquire_pages_for_tokens, extend_allocation, release_pages, publish_pages_for_tokens,
  append_input_token,
}
use shark_platform.KvCache.TrieMethods.Invariant.{Inv}
use shark_platform.KvCache.TrieMethods.Acquire.{acquire-Inv}
use shark_platform.KvCache.TrieMethods.Extend.{extend-Inv, with_tokens-Inv}
use shark_platform.KvCache.TrieMethods.Release.{release-Inv, alloc_inside}
use shark_platform.KvCache.TrieMethods.Publish.{publish_pages-Inv}
use shark_platform.KvCache.TrieMethods.Growth.{
  Grows, Grows-trans, Grows-same, release-Grows, publish_pages-Grows, renamed-Grows,
}
use shark_platform.KvCache.TrieMethods.Growth.Requests.{extend-Grows, acquire-Grows}
use shark_platform.KvCache.TrieMethods.Capacity.{
  AcquireOutcome, allocated, failed, acquire-AcquireOutcome,
}
use shark_platform.KvCache.TrieMethods.Run.{start, start-Inv}
use shark_platform.Serving.Batcher.{
  CacheOps, Pending, Message, Batcher, board_flights, receive, handle,
}
use shark_platform.Serving.Batcher.Laws.{CacheLaws}
use shark_platform.Serving.Batcher.Allocated.{room_for}
use shark_platform.Serving.Batcher.Served.{flights-IsServed}
use shark_platform.Serving.Batcher.Allocated.Kept.{
  IsSound, IsSound-later, IsWelcome, IsSound-reordered, receive-IsSound, board_flights-Keeps,
  handle-IsSound,
}

-- The allocation exists, and its list of pages is long enough for `n` tokens. A page that stands twice in
-- the list counts twice: see `Backed` of KvCache/TrieMethods/Capacity.antt for when that can be.
abbrev pub HasPages : TrieCache → ℕ → ℕ → Type 0
HasPages c a n = (a < length c.allocations) × (n ≤ length (alloc_at c a).pages * c.tokens_per_page)

pub Grows-HasPages : (c d : TrieCache) (a n : ℕ) → Grows c d → HasPages c a n → HasPages d a n
Grows-HasPages c d a n g (inside, room) = (
  omega (arith, g.more),
  rw g.page_size (omega (arith, mul-le-mul_left c.tokens_per_page (g.longer a))),
)

module _ (rt : Runtime) where
  abbrev pub trie_ops : CacheOps TrieCache
  trie_ops = record {
    acquire_pages_for_tokens = acquire_pages_for_tokens rt;
    extend_allocation = extend_allocation rt;
    release_pages = release_pages;
  }

  pub AcquireOutcome-HasPages :
      (tokens : List ℕ) (extra : ℕ) (c : TrieCache) (a : ℕ) (out : Result ℕ × TrieCache)
      → Grows c out.1
      → AcquireOutcome tokens extra c out
      → out.0 ≡ ok a
      → HasPages out.1 a (length tokens)
  AcquireOutcome-HasPages tokens extra c a out g (allocated b t x run at same live room found _) e =
      let eq : b ≡ a = ok-value (sym (ap (λ y. y.0) run) ∙ e) in
      let size : t.tokens_per_page ≡ c.tokens_per_page =
        sym (ap (λ y. y.1.tokens_per_page) run) ∙ g.page_size in
      rw (ap (λ y. y.1) run, sym eq, at, size) (alloc_inside t b (rw at live), omega (arith, room))
  AcquireOutcome-HasPages tokens extra c a out g (failed x t run same) e =
      absurd (cc (ap (λ y. y.0) run))

  -- The trie cache keeps the laws.
  abbrev pub trie_laws : CacheLaws trie_ops
  trie_laws = record {
    IsGood = Inv;
    HasRoom = HasPages;
    Later = Grows;
    later_refl = λ c. Grows-same c c refl refl;
    later_trans = λ c d e. Grows-trans;
    later_room = λ c d a n. Grows-HasPages c d a n;
    less_room = λ c a m n h p. (p.0, omega (arith, p.1));
    acquire_good =
        λ tokens extra c v. (acquire-Inv rt tokens c v extra, acquire-Grows rt tokens extra c v);
    acquire_room = λ tokens extra c a v e.
        AcquireOutcome-HasPages tokens extra c a _ (acquire-Grows rt tokens extra c v)
          (acquire-AcquireOutcome rt tokens c v extra) e;
    extend_good = λ a tokens extra c v p.
        (extend-Inv rt a tokens extra c v p.0, extend-Grows rt a tokens extra c v);
    release_good = λ a c v. (release-Inv a c v, release-Grows a c);
  }

  module _ (ideal : ℕ) where
    -- A message comes with no allocation, or with one that the cache has handed out; an executor
    -- publishes an unreleased allocation for no fewer pages than before; a generation appends a token to
    -- its list, which may be that of the allocation, or releases an allocation; and the pending requests,
    -- which are sets in the source, come into any other order. A message may also be received and the
    -- flights be boarded in two turns, so that the order can change between the two.
    pub data Turn (s : Batcher TrieCache) : Batcher TrieCache → Type 0 where
      handles : (m : Message) → IsWelcome trie_laws ideal s m → Turn s (handle trie_ops ideal m s).1
      publishes :
          (a : ℕ) (tokens : List ℕ) (incomplete : Bool)
          → (alloc_at s.cache a).is_released ≡ false
          → (alloc_at s.cache a).number_of_published_pages ≤ length tokens / s.cache.tokens_per_page
          → Turn s
              (record s { cache = (publish_pages_for_tokens rt a tokens incomplete s.cache).1 })
      appends :
          (a token : ℕ)
          → a < length s.cache.allocations
          → Turn s (record s { cache = append_input_token a token s.cache })
      receives : (m : Message) → IsWelcome trie_laws ideal s m → Turn s (receive m s)
      boards : Turn s (board_flights trie_ops ideal s).1
      releases : (a : ℕ) → Turn s (record s { cache = release_pages a s.cache })
      reorders :
          (prefills decodes : List Pending)
          → Permᴰ prefills s.pending_prefills
          → Permᴰ decodes s.pending_decodes
          → Turn s (record s { pending_prefills = prefills; pending_decodes = decodes })

    pub data Turns (s : Batcher TrieCache) : Batcher TrieCache → Type 0 where
      here : Turns s s
      next : {t u : Batcher TrieCache} → Turns s t → Turn t u → Turns s u

    Turn-IsSound : {s t : Batcher TrieCache} → Turn s t → IsSound trie_laws s → IsSound trie_laws t
    Turn-IsSound {s} (handles m h) v = handle-IsSound trie_laws ideal m s h v
    Turn-IsSound {s} (publishes a tokens incomplete live later) v =
        IsSound-later trie_laws s _
          (publish_pages-Inv rt a tokens incomplete s.cache v.good live later)
          (publish_pages-Grows rt a tokens incomplete s.cache) v
    Turn-IsSound {s} (appends a token inside) v =
        let tokens : List ℕ = (alloc_at s.cache a).tokens ++ token ∷ [] in
        IsSound-later trie_laws s _ (with_tokens-Inv a s.cache v.good inside tokens)
          (renamed-Grows a tokens s.cache) v
    Turn-IsSound {s} (reorders prefills decodes p q) v =
        IsSound-reordered trie_laws s prefills decodes p q v
    Turn-IsSound {s} (receives m h) v = receive-IsSound trie_laws ideal m s h v
    Turn-IsSound {s} boards v = board_flights-Keeps trie_laws ideal s v
    Turn-IsSound {s} (releases a) v =
        IsSound-later trie_laws s _ (release-Inv a s.cache v.good) (release-Grows a s.cache) v

    Turns-IsSound :
        {s t : Batcher TrieCache} → IsSound trie_laws s → Turns s t → IsSound trie_laws t
    Turns-IsSound v here = v
    Turns-IsSound v (next ts turn) = Turn-IsSound turn (Turns-IsSound v ts)

-- A request whose allocation exists, and lists enough pages for the tokens if it is a prefill.
abbrev pub IsServed : TrieCache → Pending → Type 0
IsServed c r = (a : ℕ) × (r.allocation ≡ some a) × HasPages c a (room_for r)

-- A server that has just started.
abbrev pub idle : Runtime → List PageTable → ℕ → ℕ → Batcher TrieCache
idle rt tables pages size = record {
  cache = start rt tables pages size;
  pending_prefills = [];
  pending_decodes = [];
  strobes = 0;
  flights = [];
  killed = [];
}

-- Where a page holds a token at least, from the start of a server on: after any sequence of turns, which
-- are handled messages without an allocation or with one that the cache has handed out, publications of
-- unreleased allocations for no fewer pages than before, releases, tokens appended to the list of an
-- allocation, and other orders of the pending requests, whether they returned or raised, the cache
-- keeps its invariant, and each request of each flight that was launched has an allocation of the cache,
-- which lists as many pages as its tokens need if it is a prefill. A page that the allocation lists
-- twice counts twice.
pub turns-IsServed :
    (rt : Runtime) (tables : List PageTable) (pages size ideal : ℕ)
    → 0 < size
    → {t : Batcher TrieCache} → Turns rt ideal (idle rt tables pages size) t
    → Inv t.cache × All (All (IsServed t.cache)) t.flights
turns-IsServed rt tables pages size ideal positive {t} ts =
    let first : IsSound (trie_laws rt) (idle rt tables pages size) = record {
      good = start-Inv rt tables pages size positive;
      prefills = tt;
      decodes = tt;
      flights = tt;
    } in
    let v = Turns-IsSound rt ideal first ts in
    (v.good, flights-IsServed (trie_laws rt) t.cache t.flights v.flights)
