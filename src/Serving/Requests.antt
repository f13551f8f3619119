-- ===== src/Serving/Requests.antt =====
-- messages.py: the requests that the batcher and the executors handle. An allocation appears as the
-- indices of its pages; what the caches do with it is in KvCache.
use shark_platform.Prelude.{ℕ, Option, none, some, List, [], take}

pub data InferencePhase : Type 0 where
  prefill decode : InferencePhase

pub record ExecRequest : Type 0 where
  pub phase : InferencePhase
  pub start_position : ℕ
  pub input_token_ids : List ℕ
  pub allocation : Option (List ℕ)

-- [p.index for p in self.allocation.pages[:max_len]]
abbrev pub cache_page_indices : ℕ → ExecRequest → List ℕ
cache_page_indices max_len r = elim r.allocation [ none ↦ [] | some pages ↦ take max_len pages ]
