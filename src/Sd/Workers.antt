-- ===== src/Sd/Workers.antt =====
-- The workers and fibers of `GenerateService`, sd/components/service.py. A fiber is its place in
-- `fibers`, a worker its place in `workers`, a device its place in `sysman.ls.devices`.
use native.Mathlib.Nat.{mul_comm, mul_assoc, mul-div_cancel, div-div-eq-div-mul}
use shark_platform.Prelude.{
  ℕ, zero, suc, ◌-◌, ◌*◌, ◌/◌, ◌%◌, ◌<◌, ◌≡◌, refl, true, arith, ltb, ◌==◌, if◌then◌else◌,
}
use shark_platform.Prelude.Exec.{Result, ok, err, value_error, zero_division_error}

pub record Layout : Type 0 where
  pub devices : ℕ
  pub workers_per_device : ℕ
  pub fibers_per_device : ℕ
  pub fibers_per_worker : ℕ

-- The part of the constructor that checks and divides the numbers.
unfoldable pub layout : ℕ → ℕ → ℕ → Result Layout
layout devices fibers_per_device workers_per_device =
    if workers_per_device == 0
    then err zero_division_error
    else if fibers_per_device % workers_per_device == 0
    then ok (record {
      devices = devices;
      workers_per_device = workers_per_device;
      fibers_per_device = fibers_per_device;
      fibers_per_worker = fibers_per_device / workers_per_device;
    })
    else err value_error

abbrev pub worker_count : Layout → ℕ
worker_count l = l.devices * l.workers_per_device

abbrev pub fiber_count : Layout → ℕ
fiber_count l = l.devices * l.fibers_per_device

-- The device of a fiber: the constructor makes the fibers of one device after those of another.
abbrev pub device_of : Layout → ℕ → ℕ
device_of l fiber = fiber / l.fibers_per_device

unfoldable pub get_worker_index : Layout → ℕ → Result ℕ
get_worker_index l fiber =
    if ltb fiber (fiber_count l)
    then ok ((fiber - fiber % l.fibers_per_worker) / l.fibers_per_worker)
    else err value_error

-- The fiber whose devices `start` loads the programs of a worker for.
abbrev pub program_fiber : Layout → ℕ → ℕ
program_fiber l worker = worker * l.fibers_per_worker

-- What `get_worker_index` answers for a fiber of the service.
pub record Indexed (l : Layout) (fiber worker : ℕ) : Type 0 where
  pub runs : get_worker_index l fiber ≡ ok worker
  pub inside : worker < worker_count l
  pub device : device_of l (program_fiber l worker) ≡ device_of l fiber

index_div : (fiber k : ℕ) → 0 < k → (fiber - fiber % k) / k ≡ fiber / k
index_div fiber k h = grind arith

block_div : (fiber k w : ℕ) → 0 < k → fiber / k * k / (w * k) ≡ fiber / (w * k)
block_div fiber k w h =
    rw
      (
        mul_comm w k,
        ← div-div-eq-div-mul (fiber / k * k) k w,
        ← div-div-eq-div-mul fiber k w,
        mul-div_cancel (fiber / k) h,
      )
      refl

some_fiber : (d w k f fiber : ℕ) → w * k ≡ f → fiber < d * f → 0 < k
some_fiber d w zero f fiber e h = absurd (grind arith)
some_fiber d w (suc k) f fiber e h = omega arith

div_inside : (fiber n k : ℕ) → fiber < n * k → fiber / k < n
div_inside fiber n k h = grind arith

module _ (devices fibers_per_device workers_per_device fiber : ℕ) {l : Layout} where
  divides :
      layout devices fibers_per_device workers_per_device ≡ ok l
      → l.workers_per_device * l.fibers_per_worker ≡ l.fibers_per_device
  unfolding layout
  divides made = grind arith

  -- In a service whose numbers of fibers and workers for each device are accepted, every fiber has a
  -- worker index, which is one of the workers, and the programs of that worker are loaded for the
  -- device of the fiber.
  pub get_worker_index-Indexed :
      layout devices fibers_per_device workers_per_device ≡ ok l
      → fiber < fiber_count l
      → Indexed l fiber (fiber / l.fibers_per_worker)
  unfolding get_worker_index
  get_worker_index-Indexed made h =
      let e : l.workers_per_device * l.fibers_per_worker ≡ l.fibers_per_device = divides made in
      let positive : 0 < l.fibers_per_worker =
        some_fiber l.devices l.workers_per_device l.fibers_per_worker l.fibers_per_device fiber e
          h in
      let known : ltb fiber (fiber_count l) ≡ true = ground arith in
      record {
        runs = rw (known, index_div fiber l.fibers_per_worker positive) refl;
        inside =
            div_inside fiber (worker_count l) l.fibers_per_worker
              (rw (mul_assoc l.devices l.workers_per_device l.fibers_per_worker, e) h);
        device = rw (← e) (block_div fiber l.fibers_per_worker l.workers_per_device positive);
      }
