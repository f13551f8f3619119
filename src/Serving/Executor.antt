-- ===== src/Serving/Executor.antt =====
-- `InferenceExecutorProcess.run` of service.py, up to the invocation of the model: the entry point it
-- selects and the arguments that it builds. A host array is a list, and `map`, `fill` and `items` of
-- shortfin act on it as shortfin/python/array_binding.cc says: items beyond the array raise, fewer
-- leave the rest as it is filled.
pub mod Rows
pub mod Prepared
pub mod Run
use shark_platform.Prelude.{
  ℕ, zero, suc, ◌+◌, ◌-◌, ◌*◌, ◌/◌, Option, none, some, List, [], ◌∷◌, ◌++◌, map, length, ltb, leb,
  ◌==◌, if◌then◌else◌,
}
use shark_platform.Prelude.Ceil.{ceil_div}
use shark_platform.Prelude.Exec.{
  Result, ok, err, value_error, runtime_error, assertion_error, zero_division_error,
}
use shark_platform.Serving.Requests.{
  InferencePhase, prefill, decode, ExecRequest, cache_page_indices,
}

-- What an invocation gets besides the page tables, and the batch size of its entry point. Only a
-- decode invocation has start positions.
pub record ExecArgs : Type 0 where
  pub batch_size : ℕ
  pub block_count : ℕ
  pub tokens : List (List ℕ)
  pub seq_lens : List ℕ
  pub start_positions : Option (List ℕ)
  pub seq_block_ids : List (List ℕ)

abbrev pub and_then {ℓ} : {A B : Type ℓ} → Result A → (A → Result B) → Result B
and_then (ok a) rest = rest a
and_then (err e) rest = err e

-- for bs, fn in entrypoints.items(): if bs >= req_bs: break
unfoldable pub entry_point : ℕ → List ℕ → Result ℕ
entry_point req_bs [] = err runtime_error
entry_point req_bs (bs ∷ rest) = if leb req_bs bs then ok bs else entry_point req_bs rest

-- assert r.start_position == 0
unfoldable pub from_start : List ExecRequest → Result (Unit {0})
from_start [] = ok tt
from_start (r ∷ rest) =
    let later = from_start rest in if r.start_position == 0 then later else err assertion_error

-- max(...), which raises on nothing
abbrev pub greatest : ℕ → List ℕ → ℕ
greatest m [] = m
greatest m (x ∷ xs) = greatest (if ltb m x then x else m) xs

abbrev pub max_of : List ℕ → Result ℕ
max_of [] = err value_error
max_of (x ∷ xs) = ok (greatest x xs)

abbrev pub rounded : ℕ → ℕ → Result ℕ
rounded bsl seq_stride =
    if seq_stride == 0 then err zero_division_error else ok (ceil_div bsl seq_stride * seq_stride)

abbrev pub replicate {ℓ} : {A : Type ℓ} → ℕ → A → List A
replicate zero a = []
replicate (suc n) a = a ∷ replicate n a

-- m.fill(value); m.items = items
unfoldable pub filled : ℕ → ℕ → List ℕ → Result (List ℕ)
filled value size items =
    if ltb size (length items)
    then err value_error
    else ok (items ++ replicate (size - length items) value)

-- The rows of a batch: those of the requests, then rows of zeros.
unfoldable pub populate : ℕ → ℕ → List (List ℕ) → Result (List (List ℕ))
populate zero size rows = ok []
populate (suc bs) size [] = and_then (populate bs size []) λ rest. ok (replicate size 0 ∷ rest)
populate (suc bs) size (items ∷ rows) =
    and_then (filled 0 size items) λ row. and_then (populate bs size rows) λ rest. ok (row ∷ rest)

-- input_token_ids[-1:]
abbrev pub last_token : List ℕ → List ℕ
last_token [] = []
last_token (t ∷ []) = t ∷ []
last_token (t ∷ (u ∷ us)) = last_token (u ∷ us)

abbrev pub extra_token_slots : InferencePhase → ℕ
extra_token_slots prefill = 0
extra_token_slots decode = 1

abbrev pub slots : InferencePhase → ExecRequest → ℕ
slots phase r = extra_token_slots phase + length r.input_token_ids

abbrev pub check_phase : InferencePhase → List ExecRequest → Result (Unit {0})
check_phase prefill rs = from_start rs
check_phase decode rs = ok tt

abbrev pub token_width : InferencePhase → ℕ → ℕ
token_width prefill bsl = bsl
token_width decode bsl = 1

abbrev pub token_items : InferencePhase → ExecRequest → List ℕ
token_items prefill r = r.input_token_ids
token_items decode r = last_token r.input_token_ids

abbrev pub seq_len : InferencePhase → ExecRequest → ℕ
seq_len prefill r = length r.input_token_ids
seq_len decode r = r.start_position + length r.input_token_ids

abbrev pub start_items : InferencePhase → ℕ → List ExecRequest → Result (Option (List ℕ))
start_items prefill bs rs = ok none
start_items decode bs rs =
    and_then (filled 1 bs (map (λ r. r.start_position) rs)) λ starts. ok (some starts)

unfoldable pub exec_args : InferencePhase → ℕ → ℕ → ℕ → List ExecRequest → Result ExecArgs
exec_args phase bs bsl block_count rs =
    and_then (populate bs (token_width phase bsl) (map (token_items phase) rs)) λ tokens.
      and_then (start_items phase bs rs) λ starts.
        and_then (filled 1 bs (map (seq_len phase) rs)) λ lens.
          and_then (populate bs block_count (map (cache_page_indices block_count) rs)) λ ids.
            ok (record {
              batch_size = bs;
              block_count = block_count;
              tokens = tokens;
              seq_lens = lens;
              start_positions = starts;
              seq_block_ids = ids;
            })

unfoldable pub prepare : InferencePhase → ℕ → List ℕ → List ExecRequest → Result ExecArgs
prepare phase seq_stride entrypoints rs = and_then (entry_point (length rs) entrypoints) λ bs.
    and_then (check_phase phase rs) λ _. and_then (max_of (map (slots phase) rs)) λ longest.
      and_then (rounded longest seq_stride) λ bsl. exec_args phase bs bsl (bsl / seq_stride) rs
