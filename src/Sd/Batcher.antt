-- ===== src/Sd/Batcher.antt =====
-- `BatcherProcess` of sd/components/service.py: how pending requests are filed into batches and the
-- batches are given to idle fibers. Sets are lists in the order in which they are iterated and popped;
-- the order of a set that a fiber goes back to is a parameter.
pub mod Batches
pub mod Flights
use mathlib.Core.Logic.{ite}
use native.Mathlib.Decide.{ℕ_discrete}
use shark_platform.Prelude.{
  ℕ, zero, suc, ◌+◌, Bool, true, false, ◌&&◌, not, Option, none, some, List, [], ◌∷◌, ◌++◌, map,
  length, take, ltb, leb, ◌==◌, if◌then◌else◌,
}
use shark_platform.Sd.Requests.{InferencePhase, PhaseData, ImageRequest}
use shark_platform.Sd.Inputs.{Value}

-- The static parameters of a request's phases.
abbrev pub Metas : Type 0
Metas = List (Option (List Value))

abbrev pub req_metas : ImageRequest → Metas
req_metas r = map (λ p. p.1.metadata) r.phases

unfoldable pub Value-discrete : Discrete Value
Value-discrete = hlevel (ℕ_discrete)

unfoldable pub Metas-discrete : Discrete Metas
unfolding Value-discrete
Metas-discrete = hlevel (Value-discrete)

pub record Batch : Type 0 where
  pub reqs : List ImageRequest
  pub meta : Metas

-- Where a request goes: into the batch of a key, or into a new one. `next_key` goes on from request
-- to request.
pub data Place : Type 0 where
  joins : (key next_key : ℕ) → Place
  opens : (next_key : ℕ) → Place

-- batches[key]["reqs"].extend([req])
unfoldable pub extend_batch : ℕ → ImageRequest → List (ℕ × Batch) → List (ℕ × Batch)
extend_batch key r [] = []
extend_batch key r ((k, b) ∷ rest) =
    if k == key
    then (k, record b { reqs = b.reqs ++ r ∷ [] }) ∷ rest
    else (k, b) ∷ extend_batch key r rest

-- batches[key] = b
unfoldable pub put_batch : ℕ → Batch → List (ℕ × Batch) → List (ℕ × Batch)
put_batch key b [] = (key, b) ∷ []
put_batch key b ((k, c) ∷ rest) = if k == key then (k, b) ∷ rest else (k, c) ∷ put_batch key b rest

unfoldable pub file_request : ImageRequest → Place → List (ℕ × Batch) → ℕ × List (ℕ × Batch)
unfolding extend_batch put_batch
file_request r (joins key next_key) batches = (next_key, extend_batch key r batches)
file_request r (opens next_key) batches =
    (next_key, put_batch next_key (record { reqs = r ∷ []; meta = req_metas r }) batches)

module _ (ideal_batch_size : ℕ) where
  -- The loop over `batches.items()`.
  unfoldable pub find_batch : Metas → ℕ → List (ℕ × Batch) → Place
  find_batch metas next_key [] = opens next_key
  find_batch metas next_key ((key, b) ∷ rest) =
      let later = find_batch metas (suc key) rest in
      if leb ideal_batch_size (length b.reqs)
      then later
      else ite (Metas-discrete b.meta metas) (joins key next_key) later

  unfoldable pub file_requests : List ImageRequest → ℕ × List (ℕ × Batch) → List (ℕ × Batch)
  unfolding find_batch file_request
  file_requests [] (next_key, batches) = batches
  file_requests (r ∷ rs) (next_key, batches) =
      file_requests rs (file_request r (find_batch (req_metas r) next_key batches) batches)

  unfoldable pub sort_batches : List ImageRequest → List (ℕ × Batch)
  unfolding file_requests
  sort_batches reqs = file_requests reqs (0, [])

-- The batcher with the fibers of its service. A flight is the requests of an executor on a fiber.
pub record BatcherState : Type 0 where
  pub pending_requests : List ImageRequest
  pub strobes : ℕ
  pub idle_fibers : List ℕ
  pub flights : List (ℕ × List ImageRequest)

-- set.remove, of a request that is there
unfoldable pub remove : ImageRequest → List ImageRequest → List ImageRequest
remove r [] = []
remove r (x ∷ xs) = if x.rid == r.rid then xs else x ∷ remove r xs

unfoldable pub remove_all : List ImageRequest → List ImageRequest → List ImageRequest
unfolding remove
remove_all [] pending = pending
remove_all (r ∷ rs) pending = remove_all rs (remove r pending)

-- An executor is launched with as many requests as fit, if there are any.
abbrev pub launch : ℕ → List ImageRequest → BatcherState → BatcherState
launch fiber [] s = s
launch fiber (r ∷ rs) s = record s {
  pending_requests = remove_all (r ∷ rs) s.pending_requests;
  flights = (fiber, r ∷ rs) ∷ s.flights;
}

module _ (ideal_batch_size : ℕ) (per_fiber : Bool) where
  unfoldable pub board : List ImageRequest → ℕ → BatcherState → BatcherState
  unfolding remove_all
  board pending fiber s = launch fiber (take ideal_batch_size pending) s

  -- `pop_order` gives the order in which Python would pop a set of fibers that one was added to.
  module _ (pop_order : List ℕ → List ℕ) where
    -- A popped fiber goes back at once unless each fiber runs one program at a time.
    unfoldable pub board_batches : List (ℕ × Batch) → List ℕ → BatcherState → BatcherState
    unfolding board
    board_batches [] idle s = record s { idle_fibers = idle }
    board_batches (b ∷ rest) [] s = record s { idle_fibers = [] }
    board_batches ((k, b) ∷ rest) (fiber ∷ idle) s =
        board_batches rest (if per_fiber then idle else pop_order (fiber ∷ idle))
          (board b.reqs fiber s)

    unfoldable pub board_flights : BatcherState → BatcherState
    unfolding board_batches
    board_flights s =
        let waiting = length s.pending_requests in
        if waiting == 0
        then s
        else if ltb waiting ideal_batch_size && ltb s.strobes 2
        then s
        else board_batches (sort_batches ideal_batch_size s.pending_requests) s.idle_fibers
            (record s { strobes = 0 })

pub data Message : Type 0 where
  exec_request : ImageRequest → Message
  strobe_message : Message

abbrev pub add_pending : ImageRequest → List ImageRequest → List ImageRequest
add_pending r [] = r ∷ []
add_pending r (x ∷ xs) = if x.rid == r.rid then x ∷ xs else x ∷ add_pending r xs

-- One round of the loop in `run`.
unfoldable pub handle : ℕ → Bool → (List ℕ → List ℕ) → Message → BatcherState → BatcherState
unfolding board_flights
handle ideal per_fiber pop_order strobe_message s =
    board_flights ideal per_fiber pop_order (record s { strobes = suc s.strobes })
handle ideal per_fiber pop_order (exec_request r) s =
    board_flights ideal per_fiber pop_order
      (record s { pending_requests = add_pending r s.pending_requests })
