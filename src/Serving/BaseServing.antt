-- ===== src/Serving/BaseServing.antt =====
-- The batcher of service.py over the cache without sharing, with the generations that release the
-- allocations. Publishing does nothing here. Each turn is one call, and all share one cache.
use shark_platform.Prelude.{ℕ, ◌≤◌, ◌<◌, ◌≡◌, some, List, [], arith, All}
use mathlib.Core.List.{Permᴰ}
use native.Mathlib.Nat.{mul-le-mul_left}
use shark_platform.KvCache.PagePool
use shark_platform.KvCache.PagePool.{PageTable}
use shark_platform.KvCache.PagePool.Acquire.{count-range}
use shark_platform.KvCache.BaseCache.Store.{
  BaseStore, store_acquire, store_extend, store_release, held, IsExclusive, Grows, Grows-refl,
  Grows-trans,
}
use shark_platform.KvCache.BaseCache.Store.Kept.{
  HasPages, acquire-Acquires, extend-kept, release-kept,
}
use shark_platform.Serving.Batcher.{
  CacheOps, Pending, Message, Batcher, board_flights, receive, handle,
}
use shark_platform.Serving.Batcher.Laws.{CacheLaws}
use shark_platform.Serving.Batcher.Allocated.{room_for}
use shark_platform.Serving.Batcher.Allocated.Kept.{
  IsSound, IsSound-later, IsWelcome, IsSound-reordered, receive-IsSound, board_flights-Keeps,
  handle-IsSound,
}
use shark_platform.Serving.Batcher.Served.{flights-IsServed}

pub Grows-HasPages : (s t : BaseStore) (a n : ℕ) → Grows s t → HasPages s a n → HasPages t a n
Grows-HasPages s t a n g (inside, room) = (
  omega (arith, g.more),
  rw g.page_size (omega (arith, mul-le-mul_left s.cache.tokens_per_page (g.longer a))),
)

abbrev pub base_ops : CacheOps BaseStore
base_ops = record {
  acquire_pages_for_tokens = store_acquire;
  extend_allocation = store_extend;
  release_pages = store_release;
}

-- The cache without sharing keeps the laws.
abbrev pub base_laws : CacheLaws base_ops
base_laws = record {
  IsGood = IsExclusive;
  HasRoom = HasPages;
  Later = Grows;
  later_refl = Grows-refl;
  later_trans = λ s t u. Grows-trans;
  later_room = λ s t a n. Grows-HasPages s t a n;
  less_room = λ s a m n h p. (p.0, omega (arith, p.1));
  acquire_good = λ tokens extra s v.
      let acquired = acquire-Acquires tokens extra s v in (acquired.exclusive, acquired.grows);
  acquire_room = λ tokens extra s a v e. (acquire-Acquires tokens extra s v).room a e;
  extend_good = λ a tokens extra s v p. extend-kept a tokens extra s v p.0;
  release_good = λ a s v. release-kept a s v;
}

module _ (ideal : ℕ) where
  -- A message comes with no allocation, or with one that the cache has handed out; a generation
  -- releases one; and the pending requests, which are sets in the source, come into any other order.
  -- A message may also be received and the flights be boarded in two turns, so that the order can change
  -- between the two.
  pub data Turn (s : Batcher BaseStore) : Batcher BaseStore → Type 0 where
    handles : (m : Message) → IsWelcome base_laws ideal s m → Turn s (handle base_ops ideal m s).1
    receives : (m : Message) → IsWelcome base_laws ideal s m → Turn s (receive m s)
    boards : Turn s (board_flights base_ops ideal s).1
    releases : (a : ℕ) → Turn s (record s { cache = store_release a s.cache })
    reorders :
        (prefills decodes : List Pending)
        → Permᴰ prefills s.pending_prefills
        → Permᴰ decodes s.pending_decodes
        → Turn s (record s { pending_prefills = prefills; pending_decodes = decodes })

  pub data Turns (s : Batcher BaseStore) : Batcher BaseStore → Type 0 where
    here : Turns s s
    next : {t u : Batcher BaseStore} → Turns s t → Turn t u → Turns s u

  Turn-IsSound : {s t : Batcher BaseStore} → Turn s t → IsSound base_laws s → IsSound base_laws t
  Turn-IsSound {s} (handles m h) v = handle-IsSound base_laws ideal m s h v
  Turn-IsSound {s} (reorders prefills decodes p q) v =
      IsSound-reordered base_laws s prefills decodes p q v
  Turn-IsSound {s} (receives m h) v = receive-IsSound base_laws ideal m s h v
  Turn-IsSound {s} boards v = board_flights-Keeps base_laws ideal s v
  Turn-IsSound {s} (releases a) v =
      let (good, later) = release-kept a s.cache v.good in
      IsSound-later base_laws s (store_release a s.cache) good later v

  Turns-IsSound : {s t : Batcher BaseStore} → IsSound base_laws s → Turns s t → IsSound base_laws t
  Turns-IsSound v here = v
  Turns-IsSound v (next ts turn) = Turn-IsSound turn (Turns-IsSound v ts)

-- The cache over a new pool.
abbrev pub new_store : List PageTable → ℕ → ℕ → BaseStore
new_store tables pages size = record {
  cache = record { page_pool = PagePool.init tables pages; tokens_per_page = size };
  allocations = [];
}

-- A server that has just started.
abbrev pub idle : List PageTable → ℕ → ℕ → Batcher BaseStore
idle tables pages size = record {
  cache = new_store tables pages size;
  pending_prefills = [];
  pending_decodes = [];
  strobes = 0;
  flights = [];
  killed = [];
}

new_store-IsExclusive :
    (tables : List PageTable) (pages size : ℕ)
    → 0 < size
    → IsExclusive (new_store tables pages size)
unfolding PagePool.init
new_store-IsExclusive tables pages size positive = record {
  positive = positive;
  exclusive = λ p. omega (arith, (count-range p 0 pages).1);
}

-- A request whose allocation exists, and has room for the tokens if it is a prefill.
abbrev pub IsServed : BaseStore → Pending → Type 0
IsServed c r = (a : ℕ) × (r.allocation ≡ some a) × HasPages c a (room_for r)

-- Where a page holds a token at least, from the start of a server on: after any sequence of handled
-- messages, releases and other orders of the pending requests, whether they returned or raised, no page
-- is free twice, or held twice by allocations that are not released, or both free and held; and each
-- request of each flight that was launched has an allocation of the cache, which has room for its
-- tokens if it is a prefill.
pub turns-IsExclusive :
    (tables : List PageTable) (pages size ideal : ℕ)
    → 0 < size
    → {t : Batcher BaseStore} → Turns ideal (idle tables pages size) t
    → ((p : ℕ) → held p t.cache ≤ 1) × All (All (IsServed t.cache)) t.flights
turns-IsExclusive tables pages size ideal positive {t} ts =
    let first : IsSound base_laws (idle tables pages size) = record {
      good = new_store-IsExclusive tables pages size positive;
      prefills = tt;
      decodes = tt;
      flights = tt;
    } in
    let v = Turns-IsSound ideal first ts in
    (v.good.exclusive, flights-IsServed base_laws t.cache t.flights v.flights)
