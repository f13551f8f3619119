-- ===== src/Examples/Sd.antt =====
-- The Stable Diffusion server at concrete requests, batches and fibers.
use shark_platform.Prelude.{
  ℕ, ◌≡◌, refl, false, ◌++◌, length, length-append, inl, inr, none, List, [], ◌∷◌, arith,
}
use shark_platform.Prelude.Count.{count, count-append}
use shark_platform.Prelude.Exec.{Exec, ok}
use shark_platform.Sd.Requests.{InferencePhase, ImageRequest, from_batch, exec_request, post_init}
use shark_platform.Sd.Inputs.Checked.{Checked, check_input-Checked}
use shark_platform.Prelude.Exec.{attempt}
use shark_platform.Sd.Inputs.{
  check_input, repeat, nothing, text, number, single, several, GenerateReqInput,
}
use shark_platform.Sd.Requests.Picked.{from_batch-stale}
use shark_platform.Sd.Executor.{run_phases}
use shark_platform.Sd.Executor.Phases.{PhasesOutcome, run_phases-PhasesOutcome}
use shark_platform.Sd.Batcher.{BatcherState, sort_batches, board_flights}
use shark_platform.Sd.Batcher.Batches.{Sorted, sort_batches-Sorted}
use shark_platform.Sd.Batcher.Flights.{Shuffles, Dispatched, board_flights-Dispatched}
use shark_platform.Sd.Workers.{Layout, layout, Indexed, get_worker_index-Indexed}

-- Two images with a prompt each; `steps` is one number for both.
abbrev two_images : GenerateReqInput
two_images = record {
  prompt = several (text (1 ∷ []) ∷ text (2 ∷ []) ∷ []);
  neg_prompt = single nothing;
  height = several (number 1024 ∷ []);
  width = single (number 512);
  steps = single (number 20);
  guidance_scale = single (number 7);
  seed = single (number 0);
  input_ids = single nothing;
  neg_input_ids = single nothing;
  output_type = single nothing;
  rid = single nothing;
}

-- Two step counts for three images.
abbrev three_images : GenerateReqInput
three_images = record two_images {
  prompt = several (text (1 ∷ []) ∷ text (2 ∷ []) ∷ text (3 ∷ []) ∷ []);
  steps = several (number 20 ∷ number 30 ∷ []);
}

width_for_steps :
    from_batch three_images 2 5
    ≡ ok (
        exec_request 5 (
          text (3 ∷ [])
          ∷ nothing
          ∷ number 1024
          ∷ number 512
          ∷ number 512
          ∷ number 7
          ∷ number 0
          ∷ []))
width_for_steps =
    from_batch-stale three_images 2 5 (inr (omega arith), (tt, (inl refl, (tt, (tt, (tt, tt))))))
      (λ h. elim h [ inl e ↦ absurd (omega (arith, e)) | inr e ↦ absurd (omega (arith, e)) ])

abbrev image : ℕ → ℕ → ImageRequest
image rid width =
    record (exec_request rid
      (text [] ∷ nothing ∷ number 512 ∷ number width ∷ number 20 ∷ number 7 ∷ number 0 ∷ [])) {
        phases = [];
        phase = none;
      }

-- A phase is noted where it runs.
abbrev noted : InferencePhase → Exec (List InferencePhase) (Unit {0})
noted p s = (ok tt, p ∷ s)

run_phases-PhasesOutcome_example :
    PhasesOutcome noted (image 1 512) [] (run_phases noted (post_init (image 1 512)).phases [])
run_phases-PhasesOutcome_example = run_phases-PhasesOutcome noted (image 1 512) refl []

-- Two images of one size and one of another.
abbrev images : List ImageRequest
images = post_init (image 1 512) ∷ post_init (image 2 1024) ∷ post_init (image 3 512) ∷ []

sort_batches-Sorted_example : Sorted 2 images (sort_batches 2 images)
sort_batches-Sorted_example = sort_batches-Sorted 2 (omega arith) images

abbrev waiting : BatcherState
waiting = record { pending_requests = images; strobes = 0; idle_fibers = 4 ∷ 5 ∷ []; flights = [] }

-- The fiber that was put back comes last.
abbrev rotate : List ℕ → List ℕ
rotate [] = []
rotate (fiber ∷ idle) = idle ++ fiber ∷ []

rotate-Shuffles : Shuffles rotate
rotate-Shuffles = record { size = size; counts = counts }
  where
    size : (xs : List ℕ) → length (rotate xs) ≡ length xs
    size [] = refl
    size (fiber ∷ idle) = omega (arith, length-append idle (fiber ∷ []))

    counts : (xs : List ℕ) (q : ℕ) → count q (rotate xs) ≡ count q xs
    counts [] q = refl
    counts (fiber ∷ idle) q = omega (arith, count-append q idle (fiber ∷ []))

board_flights-Dispatched_example : Dispatched 2 false waiting (board_flights 2 false rotate waiting)
board_flights-Dispatched_example =
    board_flights-Dispatched 2 false rotate rotate-Shuffles (omega arith) waiting

-- Two devices with two workers and four fibers each.
abbrev service : Layout
service = record {
  devices = 2;
  workers_per_device = 2;
  fibers_per_device = 4;
  fibers_per_worker = 2;
}

service_made : layout 2 4 2 ≡ ok service
unfolding layout
service_made = refl

get_worker_index-Indexed_example : Indexed service 5 2
get_worker_index-Indexed_example =
    get_worker_index-Indexed 2 4 2 5 {l = service} service_made (omega arith)

-- The two images again, at the size that is supported, with identifiers counted up.
abbrev sent : GenerateReqInput
sent = record two_images { width = single (number 1024) }

abbrev counted_up : ℕ → List ℕ
counted_up i = i ∷ []

abbrev accepted : GenerateReqInput
accepted = record sent {
  rid = several (text (0 ∷ []) ∷ text (1 ∷ []) ∷ []);
  output_type = several (repeat 2);
}

accepts : check_input counted_up sent ≡ ok (accepted, 2)
unfolding check_input attempt
accepts = refl

check_input-Checked_example : Checked sent accepted 2
check_input-Checked_example = check_input-Checked counted_up sent accepts
