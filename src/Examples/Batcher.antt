-- ===== src/Examples/Batcher.antt =====
-- The batcher over a trie cache of four pages.
use shark_platform.Prelude.{ℕ, ◌≡◌, refl, none, List, [], ◌∷◌}
use shark_platform.Prelude.Exec.{ok, ◌>>=◌}
use shark_platform.KvCache.Trie.{TrieCache}
use shark_platform.KvCache.TrieMethods.{acquire_pages_for_tokens, extend_allocation, release_pages}
use shark_platform.Serving.Requests.{prefill}
use shark_platform.Serving.Batcher.{
  CacheOps, Pending, Batcher, strobe_message, prefill_one, prefill_loop, boarding_decodes,
  take_off_prefills, take_off_decodes, board_prefills, board_decodes, flight, board_flights,
  receive, handle,
}
use shark_platform.Serving.Batcher.Flights.{FlightsOutcome, board_flights-FlightsOutcome}
use shark_platform.Serving.Batcher.Strobes.{handle-strobed}
use shark_platform.Examples.Trie.{opened, runtime, empty_cache}

abbrev trie_ops : CacheOps TrieCache
trie_ops = record {
  acquire_pages_for_tokens = acquire_pages_for_tokens runtime;
  extend_allocation = extend_allocation runtime;
  release_pages = release_pages;
}

abbrev request : ℕ → List ℕ → Pending
request rid tokens = record {
  rid = rid;
  phase = prefill;
  input_token_ids = tokens;
  allocation = none;
}

-- Three prompts want seven pages of two tokens; the second finds too few and is killed.
abbrev crowded : Batcher TrieCache
crowded = record {
  cache = empty_cache;
  pending_prefills =
      request 1 (1 ∷ 2 ∷ 3 ∷ []) ∷ request 2 (4 ∷ 5 ∷ 6 ∷ 7 ∷ 8 ∷ []) ∷ request 3 (9 ∷ []) ∷ [];
  pending_decodes = [];
  strobes = 0;
  flights = [];
  killed = [];
}

board_flights-FlightsOutcome_example : FlightsOutcome 3 crowded (board_flights trie_ops 3 crowded)
board_flights-FlightsOutcome_example = board_flights-FlightsOutcome trie_ops 3 crowded

abbrev lonely : Batcher TrieCache
lonely = record crowded { pending_prefills = request 1 (1 ∷ 2 ∷ 3 ∷ []) ∷ [] }

abbrev strobed : Batcher TrieCache → Batcher TrieCache
strobed s = (handle trie_ops 3 strobe_message s).1

waits_once : handle trie_ops 3 strobe_message lonely ≡ (ok tt, strobed lonely)
unfolding opened handle receive board_flights
waits_once = refl

flies : handle trie_ops 3 strobe_message (strobed lonely) ≡ (ok tt, strobed (strobed lonely))
unfolding opened handle receive board_flights flight board_prefills board_decodes prefill_loop
    prefill_one boarding_decodes take_off_prefills take_off_decodes ◌>>=◌
flies = refl

handle-strobed_example : (strobed (strobed lonely)).pending_prefills ≡ []
handle-strobed_example =
    handle-strobed trie_ops 3 lonely (strobed lonely) (strobed (strobed lonely)) waits_once flies
