-- ===== src/Sd/Requests/Picked.antt =====
-- Which values `from_batch` gives to the requests of a client's batch.
use shark_platform.Prelude.{
  ℕ, ◌<◌, ◌≡◌, refl, Option, none, some, List, [], ◌∷◌, arith, map, length, get_or, All, leb,
  if◌then◌else◌, Bool-cases, inl, inr, ◌⊎◌,
}
use shark_platform.Prelude.Exec.{ok}
use shark_platform.Sd.Inputs.{Value, nothing, Input, single, several, GenerateReqInput}
use shark_platform.Sd.Requests.{gen_inputs, pick, collect, exec_request, from_batch}

-- One value, or as many as to have one at `index`.
abbrev pub Fits : ℕ → Input → Type 0
Fits index (single v) = Unit
Fits index (several vs) = (length vs ≡ 1) ⊎ (index < length vs)

-- The value for `index`: the only one, or the one of its place.
abbrev pub chosen : ℕ → Input → Value
chosen index (single v) = v
chosen index (several vs) = get_or vs (if leb (length vs) index then 0 else index) nothing

pick-chosen :
    (index : ℕ) (rec_input : Option Value) (x : Input)
    → Fits index x
    → pick index rec_input x ≡ some (chosen index x)
unfolding pick
pick-chosen index rec_input (single v) h = refl
pick-chosen index rec_input (several []) h = ground arith
pick-chosen index rec_input (several (v ∷ [])) h = ground arith
pick-chosen index rec_input (several (v ∷ (w ∷ vs))) h = ground arith

-- A list of another length leaves what the round before has left.
pick-stale :
    (index : ℕ) (rec_input : Option Value) (x : Input)
    → ¬ Fits index x
    → pick index rec_input x ≡ rec_input
unfolding pick
pick-stale index rec_input (single v) h = absurd (h tt)
pick-stale index rec_input (several []) h = ground arith
pick-stale index rec_input (several (v ∷ [])) h = absurd (h (inl refl))
pick-stale index rec_input (several (v ∷ (w ∷ vs))) h =
    elim (Bool-cases (leb (length (v ∷ w ∷ vs)) index)) [
      | inl e ↦ rw e refl
      | inr e ↦ absurd (h (inr (ground arith)))
    ]

collect-cons :
    (index : ℕ) (rec_input : Option Value) (x : Input) (xs : List Input) {v : Value}
    {vs : List Value}
    → pick index rec_input x ≡ some v
    → collect index (some v) xs ≡ ok vs
    → collect index rec_input (x ∷ xs) ≡ ok (v ∷ vs)
unfolding collect
collect-cons index rec_input x xs {v} p q = rw (p, collect) (rw (q, collect) refl)

collect-chosen :
    (index : ℕ) (rec_input : Option Value) (xs : List Input)
    → All (Fits index) xs
    → collect index rec_input xs ≡ ok (map (chosen index) xs)
unfolding collect
collect-chosen index rec_input [] h = refl
collect-chosen index rec_input (x ∷ xs) h =
    collect-cons index rec_input x xs (pick-chosen index rec_input x h.0)
      (collect-chosen index (some (chosen index x)) xs h.1)

-- The values before a list that does not fit are as they should be, and then the last one of them
-- comes twice.
collect-stale :
    (index : ℕ) (before x : Input) (xs : List Input)
    → ¬ Fits index x
    → All (Fits index) xs
    → collect index (some (chosen index before)) (x ∷ xs) ≡ ok (map (chosen index) (before ∷ xs))
collect-stale index before x xs bad h =
    collect-cons index (some (chosen index before)) x xs (pick-stale index _ x bad)
      (collect-chosen index (some (chosen index before)) xs h)

module _ (g : GenerateReqInput) (index rid : ℕ) where
  made :
      {vs : List Value}
      → collect index none (gen_inputs g) ≡ ok vs
      → from_batch g index rid ≡ ok (exec_request rid vs)
  unfolding from_batch
  made e = rw (e, from_batch) refl

  -- Where each parameter of a client's batch is one value, a list of one, or a list that has an entry
  -- for the image, the request for the image has the value of each parameter.
  pub from_batch-chosen :
      All (Fits index) (gen_inputs g)
      → from_batch g index rid ≡ ok (exec_request rid (map (chosen index) (gen_inputs g)))
  from_batch-chosen h = made (collect-chosen index none (gen_inputs g) h)

  -- Where the list of step counts alone has no entry for the image and does not hold just one, the
  -- request gets the width of the image for its number of steps.
  pub from_batch-stale :
      All
        (Fits index)
        (g.prompt ∷ g.neg_prompt ∷ g.height ∷ g.width ∷ g.guidance_scale ∷ g.seed ∷ [])
      → ¬ Fits index g.steps
      → from_batch g index rid
        ≡ ok (
            exec_request rid (
              map (chosen index) (
                g.prompt ∷ g.neg_prompt ∷ g.height ∷ g.width ∷ g.width ∷ g.guidance_scale ∷ g.seed
                ∷ [])))
  from_batch-stale (a, (b, (c, (d, e)))) bad = made (
      collect-cons index none g.prompt _ (pick-chosen index none g.prompt a) (
        collect-cons index _ g.neg_prompt _ (pick-chosen index _ g.neg_prompt b) (
          collect-cons index _ g.height _ (pick-chosen index _ g.height c) (
            collect-cons index _ g.width _ (pick-chosen index _ g.width d)
              (collect-stale index g.width g.steps (g.guidance_scale ∷ g.seed ∷ []) bad e)))))
