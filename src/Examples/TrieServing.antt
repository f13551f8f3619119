-- ===== src/Examples/TrieServing.antt =====
-- A server with four pages of two tokens, which prefills one prompt and decodes once.
use shark_platform.Prelude.{◌≡◌, refl, arith, some, none, [], ◌∷◌, length, map, All}
use shark_platform.Prelude.Exec.{◌>>=◌}
use shark_platform.KvCache.Trie.{TrieCache}
use shark_platform.KvCache.TrieMethods.{release_pages}
use shark_platform.KvCache.TrieMethods.Invariant.{Inv}
use shark_platform.Serving.Requests.{prefill, decode}
use shark_platform.Serving.Batcher.{
  Pending, Batcher, exec_request, prefill_one, prefill_loop, extend_one, decode_one,
  boarding_decodes, take_off_prefills, take_off_decodes, board_prefills, board_decodes, flight,
  board_flights, receive, handle,
}
use shark_platform.Serving.TrieServing.{
  trie_ops, Turns, here, next, handles, releases, IsServed, idle, turns-IsServed,
}
use shark_platform.Examples.Trie.{opened, runtime}

abbrev prompt : Pending
prompt = record { rid = 1; phase = prefill; input_token_ids = 1 ∷ 2 ∷ 3 ∷ []; allocation = none }

abbrev first : Batcher TrieCache
first = (handle (trie_ops runtime) 1 (exec_request prompt) (idle runtime [] 4 2)).1

-- The request of the next token has the allocation of the prompt.
abbrev longer : Pending
longer = record {
  rid = 2;
  phase = decode;
  input_token_ids = 1 ∷ 2 ∷ 3 ∷ 9 ∷ [];
  allocation = some 0;
}

abbrev second : Batcher TrieCache
second = (handle (trie_ops runtime) 1 (exec_request longer) first).1

abbrev done : Batcher TrieCache
done = record second { cache = release_pages 0 second.cache }

one_allocation : length first.cache.allocations ≡ 1
unfolding opened handle receive board_flights flight board_prefills board_decodes prefill_loop
    prefill_one boarding_decodes take_off_prefills take_off_decodes ◌>>=◌
one_allocation = refl

two_flights : map (map (λ (r : Pending). r.rid)) done.flights ≡ (2 ∷ []) ∷ (1 ∷ []) ∷ []
unfolding opened handle receive board_flights flight board_prefills board_decodes prefill_loop
    prefill_one extend_one decode_one boarding_decodes take_off_prefills take_off_decodes ◌>>=◌
two_flights = refl

abbrev turns : Turns runtime 1 (idle runtime [] 4 2) done
turns =
    next
      (next (next here (handles (exec_request prompt) tt))
        (handles (exec_request longer) (rw one_allocation (omega arith), omega arith)))
      (releases 0)

turns-IsServed_example : Inv done.cache × All (All (IsServed done.cache)) done.flights
turns-IsServed_example = turns-IsServed runtime [] 4 2 1 (omega arith) turns
