-- ===== src/Examples/Executor.antt =====
-- An executor over a cache of four pages of two tokens, with a model that echoes its tokens.
use shark_platform.Prelude.{
  ℕ, ◌-◌, ◌≡◌, refl, Bool, true, false, none, some, List, [], ◌∷◌, map, take, drop, get_or,
}
use shark_platform.Prelude.Exec.{ok, pure, ◌>>=◌}
use shark_platform.Prelude.Ceil.{ceil_div}
use shark_platform.KvCache.PagePool
use shark_platform.KvCache.PagePool.{acquire_free_pages}
use shark_platform.KvCache.BaseCache.{pages_needed, acquire_pages_for_tokens, release_pages}
use shark_platform.KvCache.BaseCache.Store.{BaseStore, alloc_at, store_acquire, store_release}
use shark_platform.Serving.BaseServing.{new_store}
use shark_platform.Serving.Requests.{prefill}
use shark_platform.Serving.Executor.{prepare, entry_point, from_start, exec_args, populate, filled}
use shark_platform.Serving.Executor.Run.{
  ExecObject, ExecOps, publish_all, logits_item, return_results, invoke_and_publish, execute,
  give_up_all, run,
}
use shark_platform.Serving.Executor.Run.Outcome.{RunOutcome, run-RunOutcome}

-- Two allocations of a page each over the cache without sharing; the logits are the rows of tokens.
abbrev store : BaseStore
store = (store_acquire (7 ∷ 8 ∷ []) 0 (store_acquire (1 ∷ []) 0 (new_store [] 4 2)).1).1

abbrev echo : ExecOps BaseStore (List (List ℕ)) (List ℕ)
echo = record {
  pages = λ a s. (alloc_at s a).pages;
  publish_pages_for_tokens = λ a tokens. pure tt;
  release_pages = store_release;
  invoke = λ phase args. pure args.tokens;
  view_up_to = λ i sl rows. ok (take sl (get_or rows i []));
  view_before = λ i sl rows. ok (take 1 (drop (sl - 1) (get_or rows i [])));
  transfer = λ row. pure row;
}

abbrev prompt : ℕ → List ℕ → Bool → ExecObject (List ℕ)
prompt a ids all = record {
  start_position = 0;
  input_token_ids = ids;
  allocation = some a;
  return_all_logits = all;
  return_host_array = true;
  result_logits = none;
  done = false;
}

abbrev prompts : List (ExecObject (List ℕ))
prompts = prompt 0 (1 ∷ []) false ∷ prompt 1 (7 ∷ 8 ∷ []) true ∷ []

last_and_all :
    map (λ r. r.result_logits) (run echo prefill 2 (4 ∷ []) prompts store).0
    ≡ some (1 ∷ []) ∷ some (7 ∷ 8 ∷ []) ∷ []
unfolding run execute invoke_and_publish publish_all return_results logits_item prepare entry_point
    from_start exec_args populate filled ceil_div store_acquire acquire_pages_for_tokens
    pages_needed acquire_free_pages PagePool.init ◌>>=◌
last_and_all = refl

-- No entry point takes two requests.
all_released :
    map (λ x. x.is_released) (run echo prefill 2 (1 ∷ []) prompts store).1.allocations
    ≡ true ∷ true ∷ []
unfolding run execute give_up_all prepare entry_point ceil_div store_acquire store_release
    acquire_pages_for_tokens release_pages pages_needed acquire_free_pages PagePool.init ◌>>=◌
all_released = refl

run-RunOutcome_example :
    RunOutcome echo prefill 2 (4 ∷ []) prompts store (run echo prefill 2 (4 ∷ []) prompts store)
run-RunOutcome_example = run-RunOutcome echo prefill 2 (4 ∷ []) prompts store
