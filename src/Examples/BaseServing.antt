-- ===== src/Examples/BaseServing.antt =====
-- A server with four pages of two tokens, which prefills one prompt and decodes once.
use shark_platform.Prelude.{ℕ, ◌≤◌, ◌≡◌, refl, arith, none, some, [], ◌∷◌, length, map, All}
use shark_platform.Prelude.Ceil.{ceil_div}
use shark_platform.Prelude.Exec.{◌>>=◌}
use shark_platform.KvCache.PagePool
use shark_platform.KvCache.PagePool.{acquire_free_pages}
use shark_platform.KvCache.BaseCache.{pages_needed, acquire_pages_for_tokens, extend_allocation}
use shark_platform.KvCache.BaseCache.Store.{
  BaseStore, store_acquire, store_extend, store_release, held,
}
use shark_platform.Serving.Requests.{prefill, decode}
use shark_platform.Serving.Batcher.{
  Pending, Batcher, exec_request, prefill_one, prefill_loop, extend_one, decode_one,
  boarding_decodes, take_off_prefills, take_off_decodes, board_prefills, board_decodes, flight,
  board_flights, receive, handle,
}
use shark_platform.Serving.BaseServing.{
  base_ops, Turns, here, next, handles, releases, IsServed, idle, turns-IsExclusive,
}

abbrev prompt : Pending
prompt = record { rid = 1; phase = prefill; input_token_ids = 1 ∷ 2 ∷ 3 ∷ []; allocation = none }

abbrev first : Batcher BaseStore
first = (handle base_ops 1 (exec_request prompt) (idle [] 4 2)).1

-- The request of two more tokens has the allocation of the prompt.
abbrev longer : Pending
longer = record {
  rid = 2;
  phase = decode;
  input_token_ids = 1 ∷ 2 ∷ 3 ∷ 9 ∷ 8 ∷ [];
  allocation = some 0;
}

abbrev second : Batcher BaseStore
second = (handle base_ops 1 (exec_request longer) first).1

abbrev done : Batcher BaseStore
done = record second { cache = store_release 0 second.cache }

one_allocation : length first.cache.allocations ≡ 1
unfolding handle receive board_flights flight board_prefills board_decodes prefill_loop prefill_one
    boarding_decodes take_off_prefills take_off_decodes ◌>>=◌ store_acquire acquire_pages_for_tokens
    pages_needed acquire_free_pages PagePool.init ceil_div
one_allocation = refl

three_pages : map (λ x. length x.pages) second.cache.allocations ≡ 3 ∷ []
unfolding handle receive board_flights flight board_prefills board_decodes prefill_loop prefill_one
    extend_one decode_one boarding_decodes take_off_prefills take_off_decodes ◌>>=◌ store_acquire
    store_extend acquire_pages_for_tokens extend_allocation pages_needed acquire_free_pages
    PagePool.init ceil_div
three_pages = refl

abbrev turns : Turns 1 (idle [] 4 2) done
turns =
    next
      (next (next here (handles (exec_request prompt) tt))
        (handles (exec_request longer) (rw one_allocation (omega arith), omega arith)))
      (releases 0)

turns-IsExclusive_example :
    ((p : ℕ) → held p done.cache ≤ 1) × All (All (IsServed done.cache)) done.flights
turns-IsExclusive_example = turns-IsExclusive [] 4 2 1 (omega arith) turns
