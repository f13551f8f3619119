-- ===== src/Serving/Executor/Run/Kept.antt =====
-- What an executor keeps of the cache, whichever way it ends.
use shark_platform.Prelude.{
  ℕ, suc, Bool, true, false, Option, none, some, List, [], ◌∷◌, map, inl, inr, if◌then◌else◌,
}
use shark_platform.Prelude.Exec.{Result, ok, err, pure, continue, Result-cases}
use shark_platform.Serving.Requests.{InferencePhase}
use shark_platform.Serving.Executor.{ExecArgs, prepare}
use shark_platform.Serving.Executor.Run.{
  ExecObject, ExecOps, request_of, view_of, logits_item, return_results, execute, free_cache_pages,
  give_up_all, handled, invoke_and_publish, run,
}

module _ {S L A : Type 0} (ops : ExecOps S L A) (P : S → Type 0)
    (released : (a : ℕ) (c : S) → P c → P (ops.release_pages a c))
    (transferred : (x : A) (c : S) → P c → P (ops.transfer x c).1) where
  free_kept : (o : Option ℕ) (c : S) → P c → P (free_cache_pages ops o c)
  free_kept none c h = h
  free_kept (some a) c h = released a c h

  give_up_all_kept : (rs : List (ExecObject A)) (c : S) → P c → P (give_up_all ops rs c).1
  unfolding give_up_all
  give_up_all_kept [] c h = h
  give_up_all_kept (r ∷ rs) c h = give_up_all_kept rs _ (free_kept r.allocation c h)

  to_host_kept :
      (host : Bool) (x : A) (c : S) → P c → P ((if host then ops.transfer x else pure x) c).1
  to_host_kept true x c h = transferred x c h
  to_host_kept false x c h = h

  item_kept :
      (m : Result A) (host : Bool) (c : S)
      → P c
      → P (continue m (λ x. if host then ops.transfer x else pure x) c).1
  item_kept (ok x) host c h = to_host_kept host x c h
  item_kept (err e) host c h = h

  logits_item_kept :
      (phase : InferencePhase) (i : ℕ) (logits : L) (r : ExecObject A) (c : S)
      → P c
      → P (logits_item ops phase i logits r c).1
  unfolding logits_item
  logits_item_kept phase i logits r c h =
      item_kept (view_of ops phase i logits r) r.return_host_array c h

  return_results_kept :
      (phase : InferencePhase) (i : ℕ) (logits : L) (rs : List (ExecObject A)) (c : S)
      → P c
      → P (return_results ops phase i logits rs c).1.1
  unfolding return_results
  return_results_kept phase i logits [] c h = h
  return_results_kept phase i logits (r ∷ rs) c h =
      let g = logits_item_kept phase i logits r c h in
      elim (Result-cases (logits_item ops phase i logits r c).0) [
        | inr (e, bad) ↦ rw (bad, return_results) g
        | inl (a, good) ↦
            rw (good, return_results) (return_results_kept phase (suc i) logits rs _ g)
      ]

  handled_kept :
      (out : Result (Unit {0}) × (List (ExecObject A) × S)) → P out.1.1 → P (handled ops out).1
  handled_kept (ok u, (rs, d)) h = h
  handled_kept (err e, (rs, d)) h = give_up_all_kept rs d h

  module _ (phase : InferencePhase) (seq_stride : ℕ) (entrypoints : List ℕ)
      (rs : List (ExecObject A)) (c : S) (start : P c)
      (running : (args : ExecArgs) → P (invoke_and_publish ops phase args rs c).1) where
    execute_kept : P (execute ops phase seq_stride entrypoints rs c).1.1
    unfolding execute
    execute_kept =
        elim (Result-cases
          (prepare phase seq_stride entrypoints (map (request_of ops phase c) rs))) [
            | inr (e, bad) ↦ rw (bad, execute) start
            | inl (args, good) ↦ elim (Result-cases (invoke_and_publish ops phase args rs c).0) [
              | inr (e, bad) ↦ rw (good, execute, bad) (running args)
              | inl (logits, fine) ↦
                  rw (good, execute, fine) (return_results_kept phase 0 logits rs _ (running args))
            ]
          ]

    pub run_kept : P (run ops phase seq_stride entrypoints rs c).1
    unfolding run
    run_kept = handled_kept (execute ops phase seq_stride entrypoints rs c) execute_kept
