-- ===== src/Sd/Executor/Phases.antt =====
-- Which phases a request runs through, from how it was made.
use shark_platform.Prelude.{
  ℕ, ◌≡◌, refl, Bool, true, false, none, some, [], ◌||◌, if◌then◌else◌, Option-cases, inl, inr,
}
use shark_platform.Prelude.Exec.{Exec, Result, err, key_error, pure, ◌>>◌}
use shark_platform.Sd.Requests.{
  InferencePhase, prepare, encode, denoise, decode, postprocess, ImageRequest, is_none, post_init,
}
use shark_platform.Sd.Executor.{run_phases}

or_true : (b : Bool) → (b || true) ≡ true
or_true true = refl
or_true false = refl

module _ {S : Type 0} (perform : InferencePhase → Exec S (Unit {0})) where
  abbrev pub perform_if : Bool → InferencePhase → Exec S (Unit {0})
  perform_if missing p s = if missing then perform p s else pure tt s

  -- The phases of a request with neither latents nor an image: those that lack an input, and the rest.
  abbrev pub whole_run : ImageRequest → Exec S (Unit {0})
  whole_run r = do
    perform_if (is_none r.sample || is_none r.input_ids) prepare
    perform_if (is_none r.prompt_embeds || is_none r.text_embeds) encode
    perform denoise
    perform decode
    perform postprocess

  pub data PhasesOutcome (r : ImageRequest) (s : S) (out : Result (Unit {0}) × S) : Type 0 where
    run_through :
        r.image_array ≡ none
        → r.denoised_latents ≡ none
        → out ≡ whole_run r s
        → PhasesOutcome r s out
    has_image :
        (image : ℕ) → r.image_array ≡ some image → out ≡ (err key_error, s) → PhasesOutcome r s out
    has_latents :
        (latents : ℕ)
        → r.denoised_latents ≡ some latents
        → out ≡ (err key_error, s)
        → PhasesOutcome r s out

  module _ (r : ImageRequest) (fresh : r.phases ≡ []) (s : S) where
    -- A request that is tagged with its phases and has neither latents nor an image runs through all
    -- phases, but for the first two where their results are there. A request that has latents or an
    -- image already raises a `KeyError` before any phase.
    pub run_phases-PhasesOutcome : PhasesOutcome r s (run_phases perform (post_init r).phases s)
    unfolding post_init run_phases
    run_phases-PhasesOutcome = elim (Option-cases r.image_array) [
      | inr (image, e) ↦ has_image image e (rw (fresh, e) refl)
      | inl e ↦ elim (Option-cases r.denoised_latents) [
        | inr (latents, e') ↦ has_latents latents e' (rw (fresh, e, e') refl)
        | inl e' ↦ run_through e e' (
            rw
              (
                fresh,
                e,
                e',
                or_true (is_none r.prompt_embeds || is_none r.text_embeds),
                or_true (is_none r.sample || is_none r.input_ids),
              )
              refl)
      ]
    ]
