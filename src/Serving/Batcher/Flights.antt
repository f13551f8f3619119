-- ===== src/Serving/Batcher/Flights.antt =====
-- `board_flights`: who waits, who flies and who is killed.
use shark_platform.Prelude.{
  ℕ, ◌+◌, ◌≤◌, ◌<◌, ◌≡◌, refl, List, [], ◌∷◌, ◌++◌, arith, length, All, ◌==◌, ltb, ◌&&◌,
  if◌then◌else◌, Bool-cases, Option-cases, inl, inr, ◌⊎◌,
}
use shark_platform.Prelude.Count.{total, total-append}
use shark_platform.Prelude.Exec.{Error, Result, ok, err, ◌>>=◌}
use shark_platform.Serving.Batcher.{
  CacheOps, Pending, Boarding, Batcher, launch, take_off_prefills, take_off_decodes, board_prefills,
  board_decodes, kill_left, flight, board_flights,
}
use shark_platform.Serving.Batcher.Loops.{
  seen, HasPages, Boards, prefill_loop-Boards, boarding_decodes-Boards,
}

-- How often a request is pending, in a flight or killed.
abbrev pub tracked : {S : Type 0} → ℕ → Batcher S → ℕ
tracked p s =
    seen p s.pending_prefills
    + seen p s.pending_decodes
    + total (seen p) s.flights
    + seen p s.killed

-- A flight of at least one request, of no more than the ideal size, and with pages for every request.
abbrev pub Ready : ℕ → List Pending → Type 0
Ready ideal f = (0 < length f) × (length f ≤ ideal) × All HasPages f

seen-append : (p : ℕ) (xs ys : List Pending) → seen p (xs ++ ys) ≡ seen p xs + seen p ys
seen-append p = total-append (λ r. if r.rid == p then 1 else 0)

-- A step that keeps track of every request and launches ready flights only.
record Tracks {S : Type 0} (ideal : ℕ) (s t : Batcher S) : Type 0 where
  same : (p : ℕ) → tracked p t ≡ tracked p s
  ready : All (Ready ideal) s.flights → All (Ready ideal) t.flights
  strobes : t.strobes ≡ s.strobes

data Took {S : Type 0} (ideal : ℕ) (s : Batcher S) (out : Result (Unit {0}) × Batcher S)
    : Type 0 where
  took : (t : Batcher S) → out ≡ (ok tt, t) → Tracks ideal s t → Took ideal s out
  threw : (e : Error) (t : Batcher S) → out ≡ (err e, t) → Tracks ideal s t → Took ideal s out

total-launch :
    (p : ℕ) (rs : List Pending) (fs : List (List Pending))
    → total (seen p) (launch rs fs) ≡ seen p rs + total (seen p) fs
total-launch p [] fs = omega arith
total-launch p (r ∷ rs) fs = refl

launch-Ready :
    (ideal : ℕ) (rs : List Pending) (fs : List (List Pending))
    → length rs ≤ ideal
    → All HasPages rs
    → All (Ready ideal) fs
    → All (Ready ideal) (launch rs fs)
launch-Ready ideal [] fs n h a = a
launch-Ready ideal (r ∷ rs) fs n h a = ((omega arith, n, h), a)

module _ {S : Type 0} (ideal : ℕ) (s : Batcher S) (b : Boarding S) where
  take_off_prefills-Took : Boards ideal s.pending_prefills b → Took ideal s (take_off_prefills b s)
  unfolding take_off_prefills
  take_off_prefills-Took v = elim (Option-cases b.failure) [
    | inl e ↦
        took
          (record s {
            cache = b.cache;
            pending_prefills = b.left;
            flights = launch b.boarded s.flights;
          })
          (rw e refl)
          (record {
            same = λ p. omega (arith, v.kept p, total-launch p b.boarded s.flights);
            ready = launch-Ready ideal b.boarded s.flights v.bounded v.allocated;
            strobes = refl;
          })
    | inr (x, e) ↦
        threw x (record s { cache = b.cache; pending_prefills = b.boarded ++ b.left }) (rw e refl)
          (record {
            same = λ p. omega (arith, v.kept p, seen-append p b.boarded b.left);
            ready = λ h. h;
            strobes = refl;
          })
  ]

  take_off_decodes-Took : Boards ideal s.pending_decodes b → Took ideal s (take_off_decodes b s)
  unfolding take_off_decodes
  take_off_decodes-Took v = elim (Option-cases b.failure) [
    | inl e ↦
        took
          (record s {
            cache = b.cache;
            pending_decodes = b.left;
            flights = launch b.boarded s.flights;
          })
          (rw e refl)
          (record {
            same = λ p. omega (arith, v.kept p, total-launch p b.boarded s.flights);
            ready = launch-Ready ideal b.boarded s.flights v.bounded v.allocated;
            strobes = refl;
          })
    | inr (x, e) ↦
        threw x (record s { cache = b.cache; pending_decodes = b.boarded ++ b.left }) (rw e refl)
          (record {
            same = λ p. omega (arith, v.kept p, seen-append p b.boarded b.left);
            ready = λ h. h;
            strobes = refl;
          })
  ]

pub data FlightsOutcome {S : Type 0} (ideal : ℕ) (s : Batcher S)
    (out : Result (Unit {0}) × Batcher S) : Type 0 where
  waited :
      (length s.pending_prefills + length s.pending_decodes ≡ 0)
        ⊎ ((length s.pending_prefills + length s.pending_decodes < ideal) × (s.strobes < 2))
      → out ≡ (ok tt, s)
      → FlightsOutcome ideal s out
  flew :
      (t : Batcher S)
      → out ≡ (ok tt, t)
      → t.pending_prefills ≡ []
      → t.strobes ≡ 0
      → ((p : ℕ) → tracked p t ≡ tracked p s)
      → (All (Ready ideal) s.flights → All (Ready ideal) t.flights)
      → FlightsOutcome ideal s out
  raised :
      (e : Error) (t : Batcher S)
      → out ≡ (err e, t)
      → t.strobes ≡ 0
      → ((p : ℕ) → tracked p t ≡ tracked p s)
      → (All (Ready ideal) s.flights → All (Ready ideal) t.flights)
      → FlightsOutcome ideal s out

module _ {S : Type 0} (ops : CacheOps S) (ideal : ℕ) where
  prefills-Took : (s : Batcher S) → Took ideal s (board_prefills ops ideal s)
  unfolding board_prefills
  prefills-Took s =
      take_off_prefills-Took ideal s _ (prefill_loop-Boards ops ideal s.pending_prefills s.cache)

  decodes-Took : (s : Batcher S) → Took ideal s (board_decodes ops ideal s)
  unfolding board_decodes
  decodes-Took s =
      take_off_decodes-Took ideal s _ (boarding_decodes-Boards ops ideal s.pending_decodes s.cache)

  abbrev reset : Batcher S → Batcher S
  reset s = record s { strobes = 0 }

  flown :
      (s u : Batcher S)
      → board_prefills ops ideal (reset s) ≡ (ok tt, u)
      → Tracks ideal (reset s) u
      → Took ideal u (board_decodes ops ideal u)
      → FlightsOutcome ideal s (flight ops ideal s)
  unfolding flight ◌>>=◌
  flown s u run v (took t run' w) =
      flew (kill_left t) (rw (run, run') refl) refl (rw w.strobes v.strobes)
        (λ p. omega (arith, w.same p, v.same p, seen-append p t.pending_prefills t.killed))
        (λ h. w.ready (v.ready h))
  flown s u run v (threw e t run' w) =
      raised e t (rw (run, run') refl) (rw w.strobes v.strobes)
        (λ p. omega (arith, w.same p, v.same p)) (λ h. w.ready (v.ready h))

  flight-Outcome :
      (s : Batcher S)
      → Took ideal (reset s) (board_prefills ops ideal (reset s))
      → FlightsOutcome ideal s (flight ops ideal s)
  unfolding flight ◌>>=◌
  flight-Outcome s (took u run v) = flown s u run v (decodes-Took u)
  flight-Outcome s (threw e u run v) = raised e u (rw run refl) v.strobes v.same v.ready

  -- `board_flights` ends in one of three ways, whatever the cache does. It changes nothing only where
  -- nothing is pending, or fewer requests than the ideal size before the second strobe. If it returns
  -- otherwise, no prefill is pending. If an exception leaves it, the requests stay tracked as well: in
  -- both cases each request is pending, in a flight or killed as often as before, the strobes are reset,
  -- and each new flight has from one request to the ideal number, all of them with pages.
  pub board_flights-FlightsOutcome :
      (s : Batcher S) → FlightsOutcome ideal s (board_flights ops ideal s)
  unfolding board_flights
  board_flights-FlightsOutcome s =
      let waiting : ℕ = length s.pending_prefills + length s.pending_decodes in
      elim (Bool-cases (waiting == 0)) [
        | inl h ↦ waited (inl (ground arith)) (rw h refl)
        | inr h ↦ elim (Bool-cases (ltb waiting ideal && ltb s.strobes 2)) [
          | inl k ↦ waited (inr (ground arith)) (rw (h, k) refl)
          | inr k ↦ rw (h, k) (flight-Outcome s (prefills-Took (reset s)))
        ]
      ]
