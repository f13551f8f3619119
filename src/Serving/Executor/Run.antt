-- ===== src/Serving/Executor/Run.antt =====
-- `InferenceExecutorProcess.run` of service.py as a whole: the invocation, the publication of pages, the
-- results, and the handler of exceptions. While an executor awaits the device, other processes call the
-- cache, so what is awaited may change it; the requests are changed by the executor alone.
pub mod Outcome
pub mod Kept
use shark_platform.Prelude.{
  ℕ, zero, suc, ◌+◌, Bool, true, false, Option, none, some, List, [], ◌∷◌, map, length,
  if◌then◌else◌,
}
use shark_platform.Prelude.Exec.{
  Exec, Result, ok, err, pure, raise, continue, ◌>>=◌, ◌>>◌, assertion_error,
}
use shark_platform.Serving.Requests.{InferencePhase, prefill, decode, ExecRequest}
use shark_platform.Serving.Executor.{ExecArgs, prepare}

-- `InferenceExecRequest` as an object. `done` is a future, which may be set again.
pub record ExecObject (A : Type 0) : Type 0 where
  pub start_position : ℕ
  pub input_token_ids : List ℕ
  pub allocation : Option ℕ
  pub return_all_logits : Bool
  pub return_host_array : Bool
  pub result_logits : Option A
  pub done : Bool

-- What the executor calls: a cache with states `S`, whose allocations are numbered; the function of the
-- model, which yields logits; the views of logits `logits.view(i, slice(0, sl))` and
-- `logits.view(i, sl - 1)`; and the transfer of a view to the host.
pub record ExecOps (S L A : Type 0) : Type 0 where
  pub pages : ℕ → S → List ℕ
  pub publish_pages_for_tokens : ℕ → List ℕ → Exec S (Unit {0})
  pub release_pages : ℕ → S → S
  pub invoke : InferencePhase → ExecArgs → Exec S L
  pub view_up_to : ℕ → ℕ → L → Result A
  pub view_before : ℕ → ℕ → L → Result A
  pub transfer : A → Exec S A

abbrev pub result_length : {A : Type 0} → InferencePhase → ExecObject A → ℕ
result_length prefill r = length r.input_token_ids
result_length decode r = 1

abbrev pub answer : {A : Type 0} → A → ExecObject A → ExecObject A
answer a r = record r { result_logits = some a; done = true }

-- What the handler of exceptions leaves of a request.
abbrev pub give_up : {A : Type 0} → ExecObject A → ExecObject A
give_up r = record r { result_logits = none; allocation = none; done = true }

module _ {S L A : Type 0} (ops : ExecOps S L A) where
  -- An allocation as the indices of its pages.
  abbrev pub request_of : InferencePhase → S → ExecObject A → ExecRequest
  request_of phase c r = record {
    phase = phase;
    start_position = r.start_position;
    input_token_ids = r.input_token_ids;
    allocation = elim r.allocation [ none ↦ none | some a ↦ some (ops.pages a c) ];
  }

  -- The number of complete pages that the source passes is used by nothing in the body.
  abbrev pub publish_allocated_pages : Option ℕ → List ℕ → Exec S (Unit {0})
  publish_allocated_pages none input_token_ids = raise assertion_error
  publish_allocated_pages (some a) input_token_ids = ops.publish_pages_for_tokens a input_token_ids

  unfoldable pub publish_all : List (ExecObject A) → Exec S (Unit {0})
  unfolding ◌>>=◌
  publish_all [] = pure tt
  publish_all (r ∷ rs) = publish_allocated_pages r.allocation r.input_token_ids >> publish_all rs

  abbrev pub view_of : InferencePhase → ℕ → L → ExecObject A → Result A
  view_of phase i logits r =
      if r.return_all_logits
      then ops.view_up_to i (result_length phase r) logits
      else ops.view_before i (result_length phase r) logits

  unfoldable pub logits_item : InferencePhase → ℕ → L → ExecObject A → Exec S A
  logits_item phase i logits r =
      continue (view_of phase i logits r)
        λ a. if r.return_host_array then ops.transfer a else pure a

  -- for i in range(req_count), from `i` on. A request that raises ends the loop; those before it have
  -- their results.
  unfoldable pub return_results :
      InferencePhase
      → ℕ
      → L
      → List (ExecObject A)
      → S
      → Result (Unit {0}) × (List (ExecObject A) × S)
  return_results phase i logits [] c = (ok tt, ([], c))
  return_results phase i logits (r ∷ rs) c =
      let (item, d) = logits_item phase i logits r c in
      elim item [
        | err e ↦ (err e, (r ∷ rs, d))
        | ok a ↦
            let (end, (rest, last)) = return_results phase (suc i) logits rs d in
            (end, (answer a r ∷ rest, last))
      ]

  unfoldable pub invoke_and_publish : InferencePhase → ExecArgs → List (ExecObject A) → Exec S L
  unfolding ◌>>=◌
  invoke_and_publish phase args rs =
      ops.invoke phase args >>= λ logits. publish_all rs >> pure logits

  -- The body of the try.
  unfoldable pub execute :
      InferencePhase
      → ℕ
      → List ℕ
      → List (ExecObject A)
      → S
      → Result (Unit {0}) × (List (ExecObject A) × S)
  execute phase seq_stride entrypoints rs c =
      elim (prepare phase seq_stride entrypoints (map (request_of phase c) rs)) [
        | err e ↦ (err e, (rs, c))
        | ok args ↦
            let (logits, d) = invoke_and_publish phase args rs c in
            elim logits [ err e ↦ (err e, (rs, d)) | ok l ↦ return_results phase 0 l rs d ]
      ]

  abbrev pub free_cache_pages : Option ℕ → S → S
  free_cache_pages none c = c
  free_cache_pages (some a) c = ops.release_pages a c

  -- for req in self.exec_requests, in the handler
  unfoldable pub give_up_all : List (ExecObject A) → S → List (ExecObject A) × S
  give_up_all [] c = ([], c)
  give_up_all (r ∷ rs) c =
      let (rest, d) = give_up_all rs (free_cache_pages r.allocation c) in (give_up r ∷ rest, d)

  abbrev pub handled : Result (Unit {0}) × (List (ExecObject A) × S) → List (ExecObject A) × S
  handled (ok _, state) = state
  handled (err e, (rs, c)) = give_up_all rs c

  unfoldable pub run :
      InferencePhase → ℕ → List ℕ → List (ExecObject A) → S → List (ExecObject A) × S
  run phase seq_stride entrypoints rs c = handled (execute phase seq_stride entrypoints rs c)
