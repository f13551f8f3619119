-- ===== src/Examples/TrieExecutor.antt =====
-- An executor over the trie cache with one prompt, and a device that calls the cache of no other.
use shark_platform.Prelude.{ℕ, refl, true, false, none, some, List, [], ◌∷◌, arith}
use shark_platform.Prelude.Exec.{ok, pure}
use shark_platform.KvCache.Trie.{TrieCache}
use shark_platform.KvCache.TrieMethods.Invariant.{Inv}
use shark_platform.KvCache.TrieMethods.Run.{acquires, here, next, history-Inv}
use shark_platform.Serving.Requests.{prefill}
use shark_platform.Serving.Executor.Run.{ExecObject, ExecOps, run}
use shark_platform.Serving.TrieExecutor.{IsConsiderate, IsPublishable, over_trie, run-Inv}
use shark_platform.Examples.Trie.{opened, runtime, prompt, acquired}

-- What the cache gives to `over_trie` is not read.
abbrev device : ExecOps TrieCache (List (List ℕ)) (List ℕ)
device = record {
  pages = λ a c. [];
  publish_pages_for_tokens = λ a tokens. pure tt;
  release_pages = λ a c. c;
  invoke = λ phase args. pure args.tokens;
  view_up_to = λ i sl rows. ok [];
  view_before = λ i sl rows. ok (sl ∷ []);
  transfer = λ row. pure row;
}

abbrev request : ExecObject (List ℕ)
request = record {
  start_position = 0;
  input_token_ids = prompt;
  allocation = some 0;
  return_all_logits = false;
  return_host_array = true;
  result_logits = none;
  done = false;
}

considerate : IsConsiderate runtime device prefill (request ∷ [])
considerate = record { invoked = λ args c v h. (v, h); transferred = λ x c v. v }

publishable : IsPublishable acquired prompt 0
unfolding opened
publishable = (refl, omega arith)

run-Inv_example : Inv (run (over_trie runtime device) prefill 2 (4 ∷ []) (request ∷ []) acquired).1
run-Inv_example =
    run-Inv runtime device prefill 2 (4 ∷ []) (request ∷ []) acquired considerate
      (history-Inv runtime [] 4 2 (omega arith) (next here (acquires prompt 0)))
      ((publishable, tt), tt)
