-- ===== src/Sd/Executor.antt =====
-- `InferenceExecutorProcess.run` of sd/components/service.py: which phases a batch runs through. What
-- a phase does on the device is a parameter, which may raise.
pub mod Phases
use shark_platform.Prelude.{ℕ, Bool, Option, none, some, List, [], ◌∷◌, ◌==◌, if◌then◌else◌}
use shark_platform.Prelude.Exec.{Exec, Result, ok, err, key_error, pure, raise, ◌>>=◌, ◌>>◌}
use shark_platform.Sd.Requests.{
  InferencePhase, prepare, encode, denoise, decode, postprocess, PhaseData, ImageRequest,
}

-- The values of the enumeration.
abbrev pub phase_value : InferencePhase → ℕ
phase_value prepare = 1
phase_value encode = 2
phase_value denoise = 3
phase_value decode = 4
phase_value postprocess = 5

unfoldable pub phase_data : InferencePhase → List (InferencePhase × PhaseData) → Option PhaseData
phase_data p [] = none
phase_data p ((q, d) ∷ rest) =
    let later = phase_data p rest in if phase_value p == phase_value q then some d else later

module _ {S : Type 0} (perform : InferencePhase → Exec S (Unit {0})) where
  -- if phases[p]["required"]: ...
  unfoldable pub run_phase : List (InferencePhase × PhaseData) → InferencePhase → Exec S (Unit {0})
  unfolding phase_data
  run_phase phases p s = elim (phase_data p phases) [
    | none ↦ raise key_error s
    | some d ↦ if d.required then perform p s else pure tt s
  ]

  unfoldable pub run_phases : List (InferencePhase × PhaseData) → Exec S (Unit {0})
  unfolding run_phase ◌>>=◌
  run_phases phases = do
    run_phase phases prepare
    run_phase phases encode
    run_phase phases denoise
    run_phase phases decode
    run_phase phases postprocess
