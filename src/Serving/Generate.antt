-- ===== src/Serving/Generate.antt =====
-- `GenerateItemProcess.run` of generate.py: one prefill, then decode steps. What the service answers to
-- the i-th submission is a parameter: the token of the largest logit, or none where the request comes
-- back without logits, so that `argmax` raises.
use shark_platform.Prelude.{
  ℕ, zero, suc, ◌+◌, ◌*◌, ◌≤◌, ◌≡◌, ◌≢◌, refl, ap, false, Option, none, some, List, [], ◌∷◌, ◌++◌,
  arith, length, length-append, drop, All, ◌==◌, if◌then◌else◌, Bool-cases, Option-cases, inl, inr,
  ◌⊎◌,
}
use shark_platform.Serving.Requests.{InferencePhase, prefill, decode, ExecRequest}
use shark_platform.Serving.Executor.{seq_len}

-- What the process submits and the tokens that it appends to its result. The request has no pages
-- when it is submitted first; what pages the batcher gives it later is not the process's concern.
pub record Generation : Type 0 where
  pub submitted : List ExecRequest
  pub result_token_ids : List ℕ

abbrev pub request : InferencePhase → ℕ → List ℕ → ExecRequest
request phase position ids = record {
  phase = phase;
  start_position = position;
  input_token_ids = ids;
  allocation = none;
}

abbrev pub submit_first : ExecRequest → Generation → Generation
submit_first r g = record g { submitted = r ∷ g.submitted }

abbrev pub append_token : ℕ → Generation → Generation
append_token token g = record g { result_token_ids = token ∷ g.result_token_ids }

abbrev pub nothing : Generation
nothing = record { submitted = []; result_token_ids = [] }

module _ (answers : ℕ → Option ℕ) (eos_token_id : ℕ) where
  -- The loop of `rounds` decode steps, of which the first is the i-th submission. `position` is
  -- `start_position + 1` on entry: the source starts from `len(input_token_ids) - 1`, that is -1 for
  -- an empty prompt, and increments before it submits.
  unfoldable pub decode_loop : ℕ → ℕ → ℕ → List ℕ → ℕ → Generation
  decode_loop zero i token ids position = nothing
  decode_loop (suc rounds) i token ids position =
      let ids' = ids ++ token ∷ [] in
      submit_first (request decode position ids') (elim (answers i) [
        | none ↦ nothing
        | some next ↦
            let rest = decode_loop rounds (suc i) next ids' (suc position) in
            append_token next (if next == eos_token_id then nothing else rest)
      ])

  unfoldable pub generate : List ℕ → ℕ → Generation
  unfolding decode_loop
  generate input_token_ids max_completion_tokens =
      submit_first (request prefill 0 input_token_ids) (elim (answers 0) [
        | none ↦ nothing
        | some token ↦
            append_token token
              (decode_loop max_completion_tokens 1 token input_token_ids (length input_token_ids))
      ])

-- The tokens that a request continues from: those of the prompt, and all results before it.
abbrev pub Continues : List ℕ → List ℕ → List ExecRequest → Type 0
Continues ids results [] = Unit
Continues ids [] (r ∷ rs) = (r.input_token_ids ≡ ids) × (rs ≡ [])
Continues ids (t ∷ ts) (r ∷ rs) = (r.input_token_ids ≡ ids) × Continues (ids ++ t ∷ []) ts rs

-- A decode step starts at the last of its tokens.
abbrev pub AtLast : ExecRequest → Type 0
AtLast r = (r.phase ≡ decode) × (r.start_position + 1 ≡ length r.input_token_ids)

-- Nothing follows the end token.
abbrev pub EndsAt : ℕ → List ℕ → Type 0
EndsAt eos [] = Unit
EndsAt eos (t ∷ []) = Unit
EndsAt eos (t ∷ (u ∷ us)) = (t ≢ eos) × EndsAt eos (u ∷ us)

-- The last token is the end token.
abbrev pub EndedBy : ℕ → List ℕ → Type 0
EndedBy eos [] = ⊥
EndedBy eos (t ∷ []) = t ≡ eos
EndedBy eos (t ∷ (u ∷ us)) = EndedBy eos (u ∷ us)

-- Why a decode loop stops: all its rounds are over, or the last one gave the end token, or it failed.
abbrev pub Stopped : ℕ → ℕ → ℕ → List ℕ → Type 0
Stopped eos rounds submitted results =
    (submitted ≡ rounds) ⊎ (EndedBy eos results ⊎ (length results + 1 ≡ submitted))

pub record DecodeRun (eos rounds : ℕ) (ids : List ℕ) (g : Generation) : Type 0 where
  pub positions : All AtLast g.submitted
  pub inputs : Continues ids g.result_token_ids g.submitted
  pub ends : EndsAt eos g.result_token_ids
  pub steps : length g.submitted ≤ rounds
  pub results : length g.result_token_ids ≤ length g.submitted
  pub stops : Stopped eos rounds (length g.submitted) g.result_token_ids

EndsAt-cons : (eos t : ℕ) (ts : List ℕ) → t ≢ eos → EndsAt eos ts → EndsAt eos (t ∷ ts)
EndsAt-cons eos t [] h e = tt
EndsAt-cons eos t (u ∷ us) h e = (h, e)

Stopped-cons :
    (eos rounds n t : ℕ) (ts : List ℕ)
    → Stopped eos rounds n ts
    → Stopped eos (suc rounds) (suc n) (t ∷ ts)
Stopped-cons eos rounds n t ts (inl over) = inl (ap suc over)
Stopped-cons eos rounds n t ts (inr (inr failed)) = inr (inr (omega (arith, failed)))
Stopped-cons eos rounds n t [] (inr (inl ended)) = absurd ended
Stopped-cons eos rounds n t (u ∷ us) (inr (inl ended)) = inr (inl ended)

module _ (answers : ℕ → Option ℕ) (eos : ℕ) where
  decode_loop-DecodeRun :
      (rounds i token : ℕ) (ids : List ℕ) (position : ℕ)
      → position ≡ length ids
      → DecodeRun eos rounds
          (ids ++ token ∷ [])
          (decode_loop answers eos rounds i token ids position)
  unfolding decode_loop
  decode_loop-DecodeRun zero i token ids position h = record {
    positions = tt;
    inputs = tt;
    ends = tt;
    steps = omega arith;
    results = omega arith;
    stops = inl refl;
  }
  decode_loop-DecodeRun (suc rounds) i token ids position h = elim (Option-cases (answers i)) [
    | inl e ↦ rw e (record {
      positions = ((refl, omega (arith, h, length-append ids (token ∷ []))), tt);
      inputs = (refl, refl);
      ends = tt;
      steps = omega arith;
      results = omega arith;
      stops = inr (inr refl);
    })
    | inr (next, e) ↦
        let v : DecodeRun eos rounds ((ids ++ token ∷ []) ++ next ∷ [])
            (decode_loop answers eos rounds (suc i) next (ids ++ token ∷ []) (suc position)) =
          decode_loop-DecodeRun rounds (suc i) next (ids ++ token ∷ []) (suc position)
            (omega (arith, h, length-append ids (token ∷ []))) in
        elim (Bool-cases (next == eos)) [
          | inl stop ↦
              rw (e, stop)
                (record {
                  positions = ((refl, omega (arith, h, length-append ids (token ∷ []))), tt);
                  inputs = (refl, tt);
                  ends = tt;
                  steps = omega arith;
                  results = omega arith;
                  stops = inr (inl (ground (arith, stop)));
                })
          | inr go ↦
              rw (e, go)
                (record {
                  positions =
                      ((refl, omega (arith, h, length-append ids (token ∷ []))), v.positions);
                  inputs = (refl, v.inputs);
                  ends = EndsAt-cons eos next _ (ground arith) v.ends;
                  steps = omega (arith, v.steps);
                  results = omega (arith, v.results);
                  stops = Stopped-cons eos rounds _ next _ v.stops;
                })
        ]
  ]

-- How a generation ends: its prefill fails, or a decode loop follows.
pub data GenerateOutcome (eos rounds : ℕ) (ids : List ℕ) (out : Generation) : Type 0 where
  prefill_failed :
      out ≡ record { submitted = request prefill 0 ids ∷ []; result_token_ids = [] }
      → GenerateOutcome eos rounds ids out
  decoded :
      (token : ℕ) (rest : Generation)
      → out ≡ submit_first (request prefill 0 ids) (append_token token rest)
      → DecodeRun eos rounds (ids ++ token ∷ []) rest
      → GenerateOutcome eos rounds ids out

-- The length that an executor passes to the model for a decode request of the loop.
abbrev pub LengthDoubled : ExecRequest → Type 0
LengthDoubled r = seq_len decode r + 1 ≡ 2 * length r.input_token_ids

AtLast-LengthDoubled : (rs : List ExecRequest) → All AtLast rs → All LengthDoubled rs
AtLast-LengthDoubled [] h = tt
AtLast-LengthDoubled (r ∷ rs) h = (omega (arith, h.0.1), AtLast-LengthDoubled rs h.1)

module _ (answers : ℕ → Option ℕ) (eos : ℕ) (ids : List ℕ) (max_tokens : ℕ) where
  -- A generation submits its prompt as a prefill at position 0. Unless that fails, it appends the token
  -- of the prefill and decodes for at most `max_tokens` rounds. Each decode request holds the prompt
  -- and all results before it and starts at the last of these tokens; each round but a failed one
  -- appends a token; of the tokens of the rounds only the last can be the end token. The rounds are
  -- fewer than `max_tokens` only where the last of them fails or gives the end token: the token of
  -- the prefill ends nothing.
  pub generate-GenerateOutcome :
      GenerateOutcome eos max_tokens ids (generate answers eos ids max_tokens)
  unfolding generate
  generate-GenerateOutcome = elim (Option-cases (answers 0)) [
    | inl e ↦ prefill_failed (rw e refl)
    | inr (token, e) ↦
        decoded token (decode_loop answers eos max_tokens 1 token ids (length ids)) (rw e refl)
          (decode_loop-DecodeRun answers eos max_tokens 1 token ids (length ids) refl)
  ]

  -- For every decode request of a generation, the executor passes to the model, as the length of the
  -- sequence, twice the number of the request's tokens less 1, not the number of tokens.
  pub generate-LengthDoubled :
      All LengthDoubled (drop 1 (generate answers eos ids max_tokens).submitted)
  generate-LengthDoubled = elim generate-GenerateOutcome [
    | prefill_failed run ↦ rw run tt
    | decoded token rest run v ↦ rw run (AtLast-LengthDoubled rest.submitted v.positions)
  ]

module _ (answers : ℕ → Option ℕ) (eos : ℕ) (tokens : ℕ → ℕ)
    (served : (i : ℕ) → answers i ≡ some (tokens i)) (endless : (i : ℕ) → tokens i ≢ eos) where
  loop_length :
      (rounds i token : ℕ) (ids : List ℕ) (position : ℕ)
      → length (decode_loop answers eos rounds i token ids position).result_token_ids ≡ rounds
  unfolding decode_loop
  loop_length zero i token ids position = refl
  loop_length (suc rounds) i token ids position =
      let go : (tokens i == eos) ≡ false = ground (arith, endless i) in
      rw (served i, go)
        (omega (arith, loop_length rounds (suc i) (tokens i) (ids ++ token ∷ []) (suc position)))

  -- Where every submission is answered with a token that is not the end token, a generation gives one
  -- token for its prefill and one for each round.
  pub length-generate :
      (ids : List ℕ) (max_tokens : ℕ)
      → length (generate answers eos ids max_tokens).result_token_ids ≡ max_tokens + 1
  unfolding generate
  length-generate ids max_tokens =
      rw (served 0) (omega (arith, loop_length max_tokens 1 (tokens 0) ids (length ids)))
