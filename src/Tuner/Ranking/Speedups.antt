-- ===== src/Tuner/Ranking/Speedups.antt =====
-- The order of speedups, and the time that a device's baseline has.
use native.Mathlib.Nat.{le_of_mul-le-mul_right, mul-le-mul_left}
use shark_platform.Prelude.{
  ℕ, ◌*◌, ◌≤◌, ◌<◌, ◌≡◌, refl, ◌∙◌, true, false, Option, none, some, List, [], ◌∷◌, arith,
  if◌then◌else◌, inl, inr, Bool-cases, list_eq,
}
use shark_platform.Prelude.Dict
use shark_platform.Prelude.Dict.{get-put, get-nil}
use shark_platform.Prelude.Sort.{Decides}
use shark_platform.Tuner.Ranking.{
  DeviceId, Time, BenchmarkResult, Speedup, ratio, infinity, not_a_number, is_less, Baselines,
  baseline_times_by_device, comes_before,
}

-- The order of the quotients, compared without division.
abbrev pub NotAbove : Speedup → Speedup → Type 0
NotAbove (ratio a b) (ratio c d) = a * d ≤ c * b
NotAbove (ratio a b) infinity = Unit
NotAbove infinity infinity = Unit
NotAbove _ _ = ⊥

abbrev pub IsMeasured : Speedup → Type 0
IsMeasured (ratio a b) = 0 < b
IsMeasured infinity = Unit
IsMeasured not_a_number = ⊥

is_less-NotAbove : (x y : Speedup) → IsMeasured x → IsMeasured y → is_less x y ≡ true → NotAbove x y
unfolding is_less
is_less-NotAbove (ratio a b) (ratio c d) h k e = ground arith
is_less-NotAbove (ratio a b) infinity h k e = tt
is_less-NotAbove (ratio a b) not_a_number h k e = absurd (cc)
is_less-NotAbove infinity y h k e = absurd (cc)
is_less-NotAbove not_a_number y h k e = absurd (cc)

is_less-false : (x y : Speedup) → IsMeasured x → IsMeasured y → is_less x y ≡ false → NotAbove y x
unfolding is_less
is_less-false (ratio a b) (ratio c d) h k e = ground arith
is_less-false (ratio a b) infinity h k e = absurd (cc)
is_less-false infinity (ratio c d) h k e = tt
is_less-false infinity infinity h k e = tt
is_less-false x not_a_number h k e = absurd k
is_less-false not_a_number y h k e = absurd h

cross_trans : (a b c d e f : ℕ) → 0 < d → a * d ≤ c * b → c * f ≤ e * d → a * f ≤ e * b
cross_trans a b c d e f h p q =
    le_of_mul-le-mul_right {k = d} (omega (arith, mul-le-mul_left f p, mul-le-mul_left b q)) h

NotAbove-trans : (x y z : Speedup) → IsMeasured y → NotAbove x y → NotAbove y z → NotAbove x z
NotAbove-trans (ratio a b) (ratio c d) (ratio e f) h p q = cross_trans a b c d e f h p q
NotAbove-trans (ratio a b) (ratio c d) infinity h p q = tt
NotAbove-trans (ratio a b) infinity infinity h p q = tt
NotAbove-trans infinity infinity infinity h p q = tt
NotAbove-trans (ratio a b) (ratio c d) not_a_number h p q = absurd q
NotAbove-trans (ratio a b) infinity (ratio e f) h p q = absurd q
NotAbove-trans (ratio a b) infinity not_a_number h p q = absurd q
NotAbove-trans x not_a_number z h p q = absurd h
NotAbove-trans infinity (ratio c d) z h p q = absurd p
NotAbove-trans infinity infinity (ratio e f) h p q = absurd q
NotAbove-trans infinity infinity not_a_number h p q = absurd q
NotAbove-trans not_a_number y z h p q = absurd p

pub speedup_order : Decides (λ e. IsMeasured e.0) (λ x y. NotAbove x.0 y.0) comes_before
speedup_order = record {
  before = λ x y h k e. is_less-NotAbove x.0 y.0 h k e;
  not_before = λ x y h k e. is_less-false x.0 y.0 h k e;
  through = λ x y z h p q. NotAbove-trans x.0 y.0 z.0 h p q;
}

abbrev pub later_time : Option Time → Option Time → Option Time
later_time (some t) u = some t
later_time none u = u

-- The time in the last result of a device.
abbrev pub last_time : DeviceId → List BenchmarkResult → Option Time
last_time d [] = none
last_time d (r ∷ rs) =
    later_time (last_time d rs) (if list_eq r.device_id d then some r.time else none)

later_time_assoc :
    (a b c : Option Time) → later_time a (later_time b c) ≡ later_time (later_time a b) c
later_time_assoc (some t) b c = refl
later_time_assoc none b c = refl

later_time-none : (a : Option Time) → later_time a none ≡ a
later_time-none (some t) = refl
later_time-none none = refl

get-baselines_from :
    (d : DeviceId) (rs : List BenchmarkResult) (times : Baselines)
    → Dict.get d (baseline_times_by_device rs times)
      ≡ later_time (last_time d rs) (Dict.get d times)
unfolding baseline_times_by_device
get-baselines_from d [] times = refl
get-baselines_from d (r ∷ rs) times = elim (Bool-cases (list_eq r.device_id d)) [
  | inl e ↦
      rw
        (
          get-baselines_from d rs (Dict.put r.device_id r.time times),
          get-put r.device_id d r.time times,
          e,
        )
        (later_time_assoc (last_time d rs) (some r.time) (Dict.get d times))
  | inr e ↦
      rw
        (
          get-baselines_from d rs (Dict.put r.device_id r.time times),
          get-put r.device_id d r.time times,
          e,
        )
        (later_time_assoc (last_time d rs) none (Dict.get d times))
]

pub get-baselines :
    (d : DeviceId) (rs : List BenchmarkResult)
    → Dict.get d (baseline_times_by_device rs []) ≡ last_time d rs
get-baselines d rs =
    get-baselines_from d rs [] ∙ (rw (get-nil d) (later_time-none (last_time d rs)))
