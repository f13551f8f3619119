-- ===== src/Examples/Ranking.antt =====
-- Results of benchmarks on two devices.
use shark_platform.Prelude.{
  ℕ, ◌<◌, ◌==◌, if◌then◌else◌, ◌≡◌, refl, none, some, List, [], ◌∷◌, map, All, list_eq,
}
use shark_platform.Prelude.Dict
use shark_platform.Prelude.Sort.{sorted, insert_sorted}
use shark_platform.Prelude.Exec.{ok, err, attempt, key_error}
use shark_platform.Tuner.Ranking.{
  finite, infinite, BenchmarkResult, divide, is_less, baseline_times_by_device, get_speedup,
  with_speedups, without_baseline, select_top, benchmark,
}
use shark_platform.Tuner.Ranking.Ranked.{Selected, benchmark-Selected}

-- Two devices, the second of which is half as fast.
abbrev timed : ℕ → ℕ → ℕ → BenchmarkResult
timed i t d = record { candidate_id = i; time = finite t; device_id = d ∷ [] }

abbrev baselines : List BenchmarkResult
baselines = timed 0 100 0 ∷ timed 0 200 1 ∷ []

-- Candidate 3 times out; the candidates with even numbers run on the first device.
abbrev on_device : ℕ → BenchmarkResult
on_device i =
    if i == 3
    then record { candidate_id = 3; time = infinite; device_id = 1 ∷ [] }
    else if i == 2
    then timed 2 90 0
    else if i == 1
    then timed 1 120 1
    else timed i 95 0

top_two : benchmark (map on_device) baselines (0 ∷ 3 ∷ 4 ∷ 2 ∷ 1 ∷ []) (some 2) ≡ ok (1 ∷ 2 ∷ [])
unfolding benchmark select_top with_speedups get_speedup baseline_times_by_device divide is_less
    without_baseline attempt insert_sorted sorted Dict.get Dict.put list_eq
top_two = refl

-- A device whose baseline has timed out has quotients of zero.
abbrev stalled : List BenchmarkResult
stalled = timed 0 100 0 ∷ record { candidate_id = 0; time = infinite; device_id = 1 ∷ [] } ∷ []

stalled_device_first : benchmark (map on_device) stalled (4 ∷ 2 ∷ 1 ∷ []) (some 1) ≡ ok (1 ∷ [])
unfolding benchmark select_top with_speedups get_speedup baseline_times_by_device divide is_less
    without_baseline attempt insert_sorted sorted Dict.get Dict.put list_eq
stalled_device_first = refl

no_baseline_on_device :
    benchmark (map on_device) (timed 0 100 0 ∷ []) (4 ∷ 1 ∷ []) none ≡ err key_error
unfolding benchmark select_top with_speedups get_speedup baseline_times_by_device divide is_less
    without_baseline attempt insert_sorted sorted Dict.get Dict.put list_eq
no_baseline_on_device = refl

benchmark-Selected_example :
    All (λ i. 0 < i) (without_baseline (0 ∷ 3 ∷ 4 ∷ 2 ∷ 1 ∷ []))
    × Selected baselines
        (map on_device (3 ∷ 4 ∷ 2 ∷ 1 ∷ []))
        2
        (benchmark (map on_device) baselines (0 ∷ 3 ∷ 4 ∷ 2 ∷ 1 ∷ []) (some 2))
unfolding without_baseline
benchmark-Selected_example =
    benchmark-Selected (map on_device) baselines (0 ∷ 3 ∷ 4 ∷ 2 ∷ 1 ∷ []) (some 2)
      ((100, refl), ((200, refl), tt))
