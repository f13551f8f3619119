-- ===== src/Serving/Batcher/Strobes.antt =====
-- The strobes: no prefill waits for longer than two of them.
use shark_platform.Prelude.{
  ℕ, ◌+◌, ◌<◌, ◌≡◌, refl, List, [], ◌∷◌, ap, sym, ◌∙◌, arith, length, inl, inr, ◌⊎◌,
}
use shark_platform.Prelude.Exec.{Result, ok}
use shark_platform.Serving.Batcher.{
  CacheOps, Pending, Batcher, strobe_message, receive, board_flights, handle,
}
use shark_platform.Serving.Batcher.Flights.{
  FlightsOutcome, waited, flew, raised, board_flights-FlightsOutcome,
}

nothing_left : (xs ys : List Pending) → length xs + length ys ≡ 0 → xs ≡ []
nothing_left [] ys h = refl
nothing_left (x ∷ xs) ys h = absurd (omega (arith, h))

module _ {S : Type 0} (ops : CacheOps S) (ideal : ℕ) where
  -- Either no prefill is pending after a strobe, or it is counted.
  abbrev Counted : Batcher S → Batcher S → Type 0
  Counted s t = (t.pending_prefills ≡ []) ⊎ ((s.strobes < t.strobes) × (s.strobes < 1))

  FlightsOutcome-Counted :
      (s t : Batcher S) (out : Result (Unit {0}) × Batcher S)
      → FlightsOutcome ideal (receive strobe_message s) out
      → out ≡ (ok tt, t)
      → Counted s t
  unfolding receive
  FlightsOutcome-Counted s t out o e = elim o [
    | waited (inl none_waits) run ↦ inl (
        ap (λ x. x.1.pending_prefills) (sym e ∙ run)
        ∙ nothing_left s.pending_prefills s.pending_decodes none_waits)
    | waited (inr (few, early)) run ↦
        inr (omega (arith, ap (λ x. x.1.strobes) (sym e ∙ run)), omega (arith, early))
    | flew u run empty zero_strobes same ready ↦
        inl (ap (λ x. x.1.pending_prefills) (sym e ∙ run) ∙ empty)
    | raised x u run zero_strobes same ready ↦ absurd (ground (arith, sym e ∙ run))
  ]

  -- Where two strobes come one after the other and no exception leaves their handling, no prefill is
  -- pending afterwards: each has been launched or killed.
  pub handle-strobed :
      (s t u : Batcher S)
      → handle ops ideal strobe_message s ≡ (ok tt, t)
      → handle ops ideal strobe_message t ≡ (ok tt, u)
      → u.pending_prefills ≡ []
  unfolding handle receive
  handle-strobed s t u first second =
      strobed
        (FlightsOutcome-Counted s t _
          (board_flights-FlightsOutcome ops ideal (receive strobe_message s)) first)
        (board_flights-FlightsOutcome ops ideal (receive strobe_message t))
    where
      strobed :
          Counted s t
          → FlightsOutcome ideal
              (receive strobe_message t)
              (board_flights ops ideal (receive strobe_message t))
          → u.pending_prefills ≡ []
      strobed c (flew v run empty zero_strobes same ready) =
          ap (λ x. x.1.pending_prefills) (sym second ∙ run) ∙ empty
      strobed c (raised x v run zero_strobes same ready) = absurd (ground (arith, sym second ∙ run))
      strobed c (waited (inl none_waits) run) =
          ap (λ x. x.1.pending_prefills) (sym second ∙ run)
          ∙ nothing_left t.pending_prefills t.pending_decodes none_waits
      strobed (inl empty) (waited (inr (few, early)) run) =
          ap (λ x. x.1.pending_prefills) (sym second ∙ run) ∙ empty
      strobed (inr (later, now)) (waited (inr (few, early)) run) =
          absurd (omega (arith, later, now, early))
