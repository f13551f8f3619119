-- ===== src/Tuner/Ranking/Ranked.antt =====
-- What `benchmark` selects, where the baselines have not timed out.
use mathlib.Core.Path.{subst}
use mathlib.Core.List.{Perm, Mem, mem-cons_self, mem-cons_of_mem}
use mathlib.Core.List.Perm
use shark_platform.Prelude.{
  ℕ, zero, suc, ◌<◌, ◌≡◌, refl, ap, Option, none, some, List, [], ◌∷◌, arith, map, take, All, inl,
  inr, Option-cases, Bool-cases, list_eq, ◌==◌,
}
use shark_platform.Prelude.Sort.{sorted, sorted-Perm, sorted-All, sorted-IsSortedBy, IsSortedBy}
use shark_platform.Prelude.Exec.{
  Error, Result, ok, err, attempt, Result-cases, ok-value, key_error, zero_division_error,
}
use shark_platform.Tuner.Ranking.{
  DeviceId, Time, finite, infinite, BenchmarkResult, Speedup, divide, baseline_times_by_device,
  relative_to, get_speedup, with_speedups, comes_before, num_top_candidates, without_baseline,
  select_top, benchmark,
}
use shark_platform.Tuner.Ranking.Speedups.{
  NotAbove, IsMeasured, speedup_order, last_time, get-baselines,
}

abbrev pub IsFinite : BenchmarkResult → Type 0
IsFinite r = (t : ℕ) × (r.time ≡ finite t)

abbrev pub Keyed : Type 0
Keyed = Speedup × BenchmarkResult

-- The quotient of the time of a candidate by that of the baseline of its device.
abbrev pub HasSpeedup : List BenchmarkResult → Keyed → Type 0
HasSpeedup bs e = relative_to e.1.time (last_time e.1.device_id bs) ≡ ok e.0

-- A candidate has no baseline, or one that took no time, or the first candidates are selected of all
-- of them, ordered by their quotients.
pub data Selected (bs results : List BenchmarkResult) (n : ℕ) : Result (List ℕ) → Type 0 where
  no_baseline :
      (r : BenchmarkResult)
      → Mem r results
      → last_time r.device_id bs ≡ none
      → Selected bs results n (err key_error)
  zero_baseline :
      (r : BenchmarkResult)
      → Mem r results
      → last_time r.device_id bs ≡ some (finite 0)
      → Selected bs results n (err zero_division_error)
  ranked :
      (keyed : List Keyed)
      → Perm (map (λ e. e.1) keyed) results
      → All (HasSpeedup bs) keyed
      → IsSortedBy (λ x y. NotAbove x.0 y.0) keyed
      → Selected bs results n (ok (map (λ e. e.1.candidate_id) (take n keyed)))

-- The keys of all results, or the first exception.
data WithSpeedups (bs : List BenchmarkResult)
    : List BenchmarkResult → Result (List Keyed) → Type 0 where
  all_keyed :
      {results : List BenchmarkResult} (keyed : List Keyed)
      → map (λ e. e.1) keyed ≡ results
      → All (HasSpeedup bs) keyed
      → WithSpeedups bs results (ok keyed)
  raised :
      {results : List BenchmarkResult} {e : Error} (r : BenchmarkResult)
      → Mem r results
      → relative_to r.time (last_time r.device_id bs) ≡ err e
      → WithSpeedups bs results (err e)

get_speedup-last :
    (bs : List BenchmarkResult) (r : BenchmarkResult)
    → get_speedup (baseline_times_by_device bs []) r ≡ relative_to r.time (last_time r.device_id bs)
unfolding get_speedup
get_speedup-last bs r = ap (relative_to r.time) (get-baselines r.device_id bs)

WithSpeedups-cons :
    (bs : List BenchmarkResult) (r : BenchmarkResult) (rs : List BenchmarkResult) (key : Speedup)
    {keyed : Result (List Keyed)}
    → relative_to r.time (last_time r.device_id bs) ≡ ok key
    → WithSpeedups bs rs keyed
    → WithSpeedups bs (r ∷ rs) (attempt keyed λ ks. ok ((key, r) ∷ ks))
unfolding attempt
WithSpeedups-cons bs r rs key h (all_keyed ks same keys) =
    all_keyed ((key, r) ∷ ks) (ap (◌∷◌ r) same) (h, keys)
WithSpeedups-cons bs r rs key h (raised x m e) = raised x (mem-cons_of_mem r m) e

with_speedups-WithSpeedups :
    (bs results : List BenchmarkResult)
    → WithSpeedups bs results (with_speedups (baseline_times_by_device bs []) results)
unfolding with_speedups attempt
with_speedups-WithSpeedups bs [] = all_keyed [] refl tt
with_speedups-WithSpeedups bs (r ∷ rs) =
    elim (Result-cases (relative_to r.time (last_time r.device_id bs))) [
      | inl (key, e) ↦
          rw (get_speedup-last bs r, e)
            (WithSpeedups-cons bs r rs key e (with_speedups-WithSpeedups bs rs))
      | inr (x, e) ↦ rw (get_speedup-last bs r, e) (raised r mem-cons_self e)
    ]

-- What a finite baseline gives.
divide-IsMeasured :
    (t : Time) (b : ℕ) {key : Speedup} → divide t (finite b) ≡ ok key → IsMeasured key
unfolding divide
divide-IsMeasured t zero h = absurd (cc)
divide-IsMeasured (finite t) (suc b) h = subst IsMeasured (ok-value h) (omega arith)
divide-IsMeasured infinite (suc b) h = subst IsMeasured (ok-value h) tt

divide-err :
    (t : Time) (b : ℕ) {e : Error}
    → divide t (finite b) ≡ err e
    → (b ≡ 0) × (e ≡ zero_division_error)
unfolding divide
divide-err t zero h = (refl, cc)
divide-err (finite t) (suc b) h = absurd (cc)
divide-err infinite (suc b) h = absurd (cc)

last_time-finite :
    (d : DeviceId) (bs : List BenchmarkResult) {t : Time}
    → All IsFinite bs
    → last_time d bs ≡ some t
    → (b : ℕ) × (t ≡ finite b)
last_time-finite d [] _ h = absurd (cc)
last_time-finite d (b ∷ bs) ((t, e), rest) h = elim (Option-cases (last_time d bs)) [
  | inr (u, q) ↦ let (x, y) = last_time-finite d bs rest q in let same = rw q at h in (x, cc)
  | inl q ↦ elim (Bool-cases (list_eq b.device_id d)) [
    | inl y ↦ let same = rw (q, y) at h in (t, cc)
    | inr n ↦ absurd (let same = rw (q, n) at h in cc)
  ]
]

HasSpeedup-IsMeasured :
    (bs : List BenchmarkResult) (e : Keyed) → All IsFinite bs → HasSpeedup bs e → IsMeasured e.0
HasSpeedup-IsMeasured bs e fin h = elim (Option-cases (last_time e.1.device_id bs)) [
  | inl q ↦ absurd (let missing = rw q at h in cc)
  | inr (t, q) ↦
      let (b, y) = last_time-finite e.1.device_id bs fin q in
      divide-IsMeasured e.1.time b (rw (q, y) at h)
]

All-IsMeasured :
    (bs : List BenchmarkResult) (keyed : List Keyed)
    → All IsFinite bs
    → All (HasSpeedup bs) keyed
    → All (λ e. IsMeasured e.0) keyed
All-IsMeasured bs [] fin _ = tt
All-IsMeasured bs (e ∷ es) fin (h, hs) =
    (HasSpeedup-IsMeasured bs e fin h, All-IsMeasured bs es fin hs)

err-value : {A : Type 0} {d e : Error} → ◌≡◌ {A = Result A} (err d) (err e) → d ≡ e
err-value h = cc

failed-Selected :
    (bs results : List BenchmarkResult) (n : ℕ) (r : BenchmarkResult) {e : Error}
    → All IsFinite bs
    → Mem r results
    → relative_to r.time (last_time r.device_id bs) ≡ err e
    → Selected bs results n (err e)
failed-Selected bs results n r {e} fin m h = elim (Option-cases (last_time r.device_id bs)) [
  | inl q ↦ let same : key_error ≡ e = err-value (rw q at h) in rw⁻¹ same (no_baseline r m q)
  | inr (t, q) ↦
      let (b, y) = last_time-finite r.device_id bs fin q in
      let (zero_time, same) = divide-err r.time b (rw (q, y) at h) in
      rw same (zero_baseline r m (rw (q, y, zero_time) refl))
]

WithSpeedups-Selected :
    (bs results : List BenchmarkResult) (n : ℕ) {keyed : Result (List Keyed)}
    → All IsFinite bs
    → WithSpeedups bs results keyed
    → Selected bs results n
        (attempt keyed λ ks. ok (map (λ e. e.1.candidate_id) (take n (sorted comes_before ks))))
unfolding attempt
WithSpeedups-Selected bs results n fin (all_keyed keyed same keys) =
    ranked (sorted comes_before keyed)
      (subst (Perm (map (λ e. e.1) (sorted comes_before keyed))) same
        (Perm.map (λ e. e.1) (sorted-Perm comes_before keyed)))
      (sorted-All comes_before (HasSpeedup bs) keyed keys)
      (sorted-IsSortedBy speedup_order keyed (All-IsMeasured bs keyed fin keys))
WithSpeedups-Selected bs results n fin (raised r m e) = failed-Selected bs results n r fin m e

without_baseline-All : (is : List ℕ) → All (λ i. 0 < i) (without_baseline is)
unfolding without_baseline
without_baseline-All [] = tt
without_baseline-All (i ∷ is) = elim (Bool-cases (i == 0)) [
  | inl e ↦ rw e (without_baseline-All is)
  | inr n ↦ rw n (ground arith, without_baseline-All is)
]

-- The baseline is not benchmarked as a candidate. If no baseline has timed out, `benchmark` returns the
-- first of all results in the order of their times relative to the last baseline of their devices, as
-- many as asked for; a device without a baseline is a `KeyError`, one whose baseline took no time a
-- `ZeroDivisionError`.
pub benchmark-Selected :
    (run_tasks : List ℕ → List BenchmarkResult) (baseline_results : List BenchmarkResult)
    (compiled : List ℕ) (num : Option ℕ)
    → All IsFinite baseline_results
    → let results = run_tasks (without_baseline compiled) in
      All (λ i. 0 < i) (without_baseline compiled)
      × Selected baseline_results results
          (num_top_candidates num results)
          (benchmark run_tasks baseline_results compiled num)
unfolding benchmark select_top
benchmark-Selected run_tasks bs compiled num fin =
    let results = run_tasks (without_baseline compiled) in
    (
      without_baseline-All compiled,
      WithSpeedups-Selected bs results (num_top_candidates num results) fin
          (with_speedups-WithSpeedups bs results),
    )
