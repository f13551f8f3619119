-- ===== src/Sd/Requests.antt =====
-- messages.py of the Stable Diffusion application: a request for an image, what a client's batch gives
-- it, and the phases that it has to run through. A device array is known by a number.
pub mod Picked
use shark_platform.Prelude.{
  ℕ, Bool, true, false, ◌||◌, Option, none, some, List, [], ◌∷◌, ◌++◌, length, leb, get_or,
  if◌then◌else◌,
}
use shark_platform.Sd.Inputs.{Value, nothing, Input, single, several, GenerateReqInput}
use shark_platform.Prelude.Exec.{Result, ok, err, unbound_local_error}

pub data InferencePhase : Type 0 where
  prepare encode denoise decode postprocess : InferencePhase

pub record PhaseData : Type 0 where
  pub required : Bool
  pub metadata : Option (List Value)

pub record ImageRequest : Type 0 where
  pub rid : ℕ
  pub prompt : Value
  pub neg_prompt : Value
  pub height : Value
  pub width : Value
  pub steps : Value
  pub guidance_scale : Value
  pub seed : Value
  pub input_ids : Option ℕ
  pub sample : Option ℕ
  pub prompt_embeds : Option ℕ
  pub text_embeds : Option ℕ
  pub denoised_latents : Option ℕ
  pub image_array : Option ℕ
  pub phases : List (InferencePhase × PhaseData)
  pub phase : Option InferencePhase

abbrev pub is_none {ℓ} : {A : Type ℓ} → Option A → Bool
is_none none = true
is_none (some a) = false

-- Whether a phase is required, and its static parameters.
unfoldable pub check_phase : InferencePhase → ImageRequest → PhaseData
check_phase postprocess r = record { required = true; metadata = none }
check_phase decode r = record {
  required = is_none r.image_array;
  metadata = some (r.width ∷ r.height ∷ []);
}
check_phase denoise r = record {
  required = is_none r.denoised_latents;
  metadata = some (r.width ∷ r.height ∷ r.steps ∷ []);
}
check_phase encode r = record {
  required = is_none r.prompt_embeds || is_none r.text_embeds;
  metadata = none;
}
check_phase prepare r = record {
  required = is_none r.sample || is_none r.input_ids;
  metadata = none;
}

-- p in [InferencePhase.ENCODE, InferencePhase.PREPARE]
abbrev pub is_early : InferencePhase → Bool
is_early encode = true
is_early prepare = true
is_early p = false

-- The loop of `post_init` over the phases that are left, from the last one back.
unfoldable pub tag_phases : List InferencePhase → ImageRequest → ImageRequest
unfolding check_phase
tag_phases [] r = r
tag_phases (p ∷ ps) r =
    let r' = record r { phases = r.phases ++ (p, check_phase p r) ∷ [] } in
    let rest = tag_phases ps (record r' { phase = some p }) in
    if (check_phase p r).required || is_early p then rest else r'

unfoldable pub post_init : ImageRequest → ImageRequest
unfolding tag_phases
post_init r = tag_phases (postprocess ∷ decode ∷ denoise ∷ encode ∷ prepare ∷ []) r

-- The only value of a list with one, or what `rec_input` holds from the round before.
abbrev pub only : Option Value → List Value → Option Value
only rec_input (v ∷ []) = some v
only rec_input vs = rec_input

-- One round of the loop of `from_batch`: `rec_input`, which is unbound before the first one.
unfoldable pub pick : ℕ → Option Value → Input → Option Value
pick index rec_input (single v) = some v
pick index rec_input (several vs) =
    if leb (length vs) index then only rec_input vs else some (get_or vs index nothing)

unfoldable pub collect : ℕ → Option Value → List Input → Result (List Value)
unfolding pick
collect index rec_input [] = ok []
collect index rec_input (x ∷ xs) = elim (pick index rec_input x) [
  | none ↦ err unbound_local_error
  | some v ↦ elim (collect index (some v) xs) [ ok vs ↦ ok (v ∷ vs) | err e ↦ err e ]
]

abbrev pub gen_inputs : GenerateReqInput → List Input
gen_inputs g =
    g.prompt ∷ g.neg_prompt ∷ g.height ∷ g.width ∷ g.steps ∷ g.guidance_scale ∷ g.seed ∷ []

-- InferenceExecRequest(**rec_inputs): nothing is computed yet.
unfoldable pub exec_request : ℕ → List Value → ImageRequest
unfolding post_init
exec_request rid vs = post_init (record {
  rid = rid;
  prompt = get_or vs 0 nothing;
  neg_prompt = get_or vs 1 nothing;
  height = get_or vs 2 nothing;
  width = get_or vs 3 nothing;
  steps = get_or vs 4 nothing;
  guidance_scale = get_or vs 5 nothing;
  seed = get_or vs 6 nothing;
  input_ids = none;
  sample = none;
  prompt_embeds = none;
  text_embeds = none;
  denoised_latents = none;
  image_array = none;
  phases = [];
  phase = none;
})

unfoldable pub from_batch : GenerateReqInput → ℕ → ℕ → Result ImageRequest
unfolding collect exec_request
from_batch g index rid = elim (collect index none (gen_inputs g)) [
  | ok vs ↦ ok (exec_request rid vs)
  | err e ↦ err e
]
