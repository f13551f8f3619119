-- ===== src/Tuner/Ranking.antt =====
-- tuner/tuner/libtuner.py: which candidates `benchmark` returns, of the results that the workers give
-- for the candidates and for the baseline. A time is a multiple of a unit that all finite floats are
-- multiples of, or `math.inf`; a quotient of times is exact, and an order of `nan` is not claimed.
pub mod Speedups
pub mod Ranked
use shark_platform.Prelude.{
  ℕ, zero, suc, ◌*◌, Bool, true, false, Option, none, some, List, [], ◌∷◌, map, length, take, ltb,
  ◌==◌, if◌then◌else◌,
}
use shark_platform.Prelude.Dict
use shark_platform.Prelude.Sort.{sorted}
use shark_platform.Prelude.Exec.{Result, ok, err, attempt, key_error, zero_division_error}

abbrev pub DeviceId : Type 0
DeviceId = List ℕ

pub data Time : Type 0 where
  finite : ℕ → Time
  infinite : Time

pub record BenchmarkResult : Type 0 where
  pub candidate_id : ℕ
  pub time : Time
  pub device_id : DeviceId

-- A quotient of floats.
pub data Speedup : Type 0 where
  ratio : ℕ → ℕ → Speedup
  infinity : Speedup
  not_a_number : Speedup

unfoldable pub divide : Time → Time → Result Speedup
divide t (finite zero) = err zero_division_error
divide (finite t) (finite (suc b)) = ok (ratio t (suc b))
divide (finite t) infinite = ok (ratio 0 1)
divide infinite (finite (suc b)) = ok infinity
divide infinite infinite = ok not_a_number

-- `<` of the keys
unfoldable pub is_less : Speedup → Speedup → Bool
is_less (ratio a b) (ratio c d) = ltb (a * d) (c * b)
is_less (ratio a b) infinity = true
is_less _ _ = false

abbrev pub Baselines : Type 0
Baselines = List (DeviceId × Time)

-- The later result of a device replaces the earlier one.
unfoldable pub baseline_times_by_device : List BenchmarkResult → Baselines → Baselines
baseline_times_by_device [] times = times
baseline_times_by_device (r ∷ rs) times =
    baseline_times_by_device rs (Dict.put r.device_id r.time times)

abbrev pub relative_to : Time → Option Time → Result Speedup
relative_to t none = err key_error
relative_to t (some b) = divide t b

unfoldable pub get_speedup : Baselines → BenchmarkResult → Result Speedup
get_speedup times r = relative_to r.time (Dict.get r.device_id times)

-- `sorted` computes all keys first.
unfoldable pub with_speedups :
    Baselines → List BenchmarkResult → Result (List (Speedup × BenchmarkResult))
with_speedups times [] = ok []
with_speedups times (r ∷ rs) =
    attempt (get_speedup times r)
      λ key. attempt (with_speedups times rs) λ keyed. ok ((key, r) ∷ keyed)

abbrev pub comes_before : Speedup × BenchmarkResult → Speedup × BenchmarkResult → Bool
comes_before a b = is_less a.0 b.0

abbrev pub num_top_candidates : Option ℕ → List BenchmarkResult → ℕ
num_top_candidates none candidate_results = length candidate_results
num_top_candidates (some n) candidate_results = n

-- The candidates that are benchmarked: the baseline is not among them.
unfoldable pub without_baseline : List ℕ → List ℕ
without_baseline [] = []
without_baseline (i ∷ is) = let rest = without_baseline is in if i == 0 then rest else i ∷ rest

unfoldable pub select_top : List BenchmarkResult → List BenchmarkResult → Option ℕ → Result (List ℕ)
select_top candidate_results baseline_results num_candidates =
    attempt (with_speedups (baseline_times_by_device baseline_results []) candidate_results)
      λ keyed. ok (
        map (λ e. e.1.candidate_id)
          (take (num_top_candidates num_candidates candidate_results) (sorted comes_before keyed)))

-- The worker pools give the results of the candidates and of the baselines, in the order of their end.
unfoldable pub benchmark :
    (List ℕ → List BenchmarkResult) → List BenchmarkResult → List ℕ → Option ℕ → Result (List ℕ)
benchmark run_tasks baseline_results compiled_candidates num_candidates =
    select_top (run_tasks (without_baseline compiled_candidates)) baseline_results num_candidates
