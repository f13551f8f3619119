-- ===== src/Sd/Batcher/Flights.antt =====
-- `board_flights` of the Stable Diffusion batcher: who waits and who flies, and on which fiber.
use shark_platform.Prelude.{
  ℕ, zero, suc, ◌+◌, ◌≤◌, ◌<◌, ◌≡◌, refl, ap, ◌∙◌, Bool, true, false, ◌&&◌, List, [], ◌∷◌, arith,
  length, All, ltb, ◌==◌, if◌then◌else◌, Bool-cases, inl, inr, ◌⊎◌, take,
}
use shark_platform.Prelude.Count.{total, count}
use shark_platform.Sd.Requests.{ImageRequest}
use shark_platform.Sd.Batcher.{
  Metas, req_metas, Batch, sort_batches, BatcherState, remove, remove_all, launch, board,
  board_batches, board_flights,
}
use shark_platform.Sd.Batcher.Batches.{here, seen, filed, Proper, Sorted, sort_batches-Sorted}

-- How often a request is pending or in a flight.
abbrev pub tracked : ℕ → BatcherState → ℕ
tracked p s = seen p s.pending_requests + total (λ f. seen p f.1) s.flights

remove-seen :
    (p : ℕ) (r : ImageRequest) (xs : List ImageRequest)
    → 0 < seen r.rid xs
    → seen p (remove r xs) + here p r ≡ seen p xs
unfolding remove
remove-seen p r [] h = elim h [ ]
remove-seen p r (x ∷ xs) h = elim (Bool-cases (x.rid == r.rid)) [
  | inl same ↦ rw same (let e : x.rid ≡ r.rid = ground arith in rw e (omega arith))
  | inr other ↦ rw other (omega (arith, remove-seen p r xs (ground arith)))
]

remove_all-seen :
    (rs xs : List ImageRequest)
    → ((p : ℕ) → seen p rs ≤ seen p xs)
    → (p : ℕ) → seen p (remove_all rs xs) + seen p rs ≡ seen p xs
unfolding remove_all
remove_all-seen [] xs h p = omega arith
remove_all-seen (r ∷ rs) xs h p =
    let there : 0 < seen r.rid xs = ground (arith, h r.rid) in
    omega (
      arith,
      remove-seen p r xs there,
      remove_all-seen rs (remove r xs) (λ q. omega (arith, h q, remove-seen q r xs there)) p,
    )

take_all : (n : ℕ) (xs : List ImageRequest) → length xs ≤ n → take n xs ≡ xs
take_all zero [] h = refl
take_all zero (x ∷ xs) h = elim h [ ]
take_all (suc n) [] h = refl
take_all (suc n) (x ∷ xs) h = ap (◌∷◌ x) (take_all n xs (omega (arith, h)))

-- A flight of at least one request, of no more than the ideal number, with equal static parameters.
abbrev pub Ready : ℕ → ℕ × List ImageRequest → Type 0
Ready ideal f =
    (0 < length f.1) × (length f.1 ≤ ideal) × ((m : Metas) × All (λ r. req_metas r ≡ m) f.1)

-- How often a fiber has been given a flight.
abbrev pub uses : ℕ → List (ℕ × List ImageRequest) → ℕ
uses q = total (λ f. if f.0 == q then 1 else 0)

-- How often a fiber is idle or, where it is given to one flight at a time, in use.
abbrev pub engaged : Bool → ℕ → BatcherState → ℕ
engaged per_fiber q s = count q s.idle_fibers + (if per_fiber then uses q s.flights else 0)

-- Idle fibers for all batches: one for each, or one that takes them all.
abbrev pub Enough : Bool → ℕ → ℕ → Type 0
Enough true batches idle = batches ≤ idle
Enough false batches idle = 0 < idle

-- What boarding a list of batches does to the state.
record Boards (ideal : ℕ) (per_fiber : Bool) (batches : List (ℕ × Batch)) (s t : BatcherState)
    : Type 0 where
  same : (p : ℕ) → tracked p t ≡ tracked p s
  ready : All (Ready ideal) s.flights → All (Ready ideal) t.flights
  fibers : (q : ℕ) → engaged per_fiber q t ≡ engaged per_fiber q s
  strobes : t.strobes ≡ s.strobes
  flown :
      Enough per_fiber (length batches) (length s.idle_fibers)
      → (p : ℕ) → seen p t.pending_requests + filed p batches ≡ seen p s.pending_requests

-- The state after a batch has been launched on a fiber.
abbrev launched : ℕ → Batch → BatcherState → BatcherState
launched fiber b s = record s {
  pending_requests = remove_all b.reqs s.pending_requests;
  flights = (fiber, b.reqs) ∷ s.flights;
}

launch-launched :
    (fiber : ℕ) (rs : List ImageRequest) (m : Metas) (s : BatcherState)
    → 0 < length rs
    → launch fiber rs s ≡ launched fiber (record { reqs = rs; meta = m }) s
launch-launched fiber [] m s h = elim h [ ]
launch-launched fiber (r ∷ rs) m s h = refl

board-launched :
    (ideal fiber k : ℕ) (per_fiber : Bool) (b : Batch) (s : BatcherState)
    → Proper ideal (k, b)
    → board ideal per_fiber b.reqs fiber s ≡ launched fiber b s
unfolding board
board-launched ideal fiber k per_fiber b s h =
    rw (take_all ideal b.reqs h.1) (launch-launched fiber b.reqs b.meta s h.0)

no_idle : (per_fiber : Bool) (n : ℕ) → Enough per_fiber (suc n) 0 → ⊥
no_idle true n h = omega (arith, h)
no_idle false n h = omega (arith, h)

-- The set that a fiber was added to has the same elements in any order.
pub record Shuffles (pop_order : List ℕ → List ℕ) : Type 0 where
  pub size : (xs : List ℕ) → length (pop_order xs) ≡ length xs
  pub counts : (xs : List ℕ) (q : ℕ) → count q (pop_order xs) ≡ count q xs

module _ (pop_order : List ℕ → List ℕ) (shuffles : Shuffles pop_order) where
  Enough-rest :
      (per_fiber : Bool) (n fiber : ℕ) (idle : List ℕ)
      → Enough per_fiber (suc n) (length (fiber ∷ idle))
      → Enough per_fiber n (length (if per_fiber then idle else pop_order (fiber ∷ idle)))
  Enough-rest true n fiber idle h = omega (arith, h)
  Enough-rest false n fiber idle h = omega (arith, h, shuffles.size (fiber ∷ idle))

  engaged_rest :
      (per_fiber : Bool) (q fiber : ℕ) (b : Batch) (idle : List ℕ) (s : BatcherState)
      → engaged per_fiber q (record (launched fiber b s) {
        idle_fibers = if per_fiber then idle else pop_order (fiber ∷ idle);
      })
        ≡ engaged per_fiber q (record s { idle_fibers = fiber ∷ idle })
  engaged_rest true q fiber b idle s = omega arith
  engaged_rest false q fiber b idle s = omega (arith, shuffles.counts (fiber ∷ idle) q)

module _ (ideal : ℕ) (per_fiber : Bool) (pop_order : List ℕ → List ℕ)
    (shuffles : Shuffles pop_order) where
  board_batches-Boards :
      (batches : List (ℕ × Batch)) (idle : List ℕ) (s : BatcherState)
      → All (Proper ideal) batches
      → ((p : ℕ) → filed p batches ≤ seen p s.pending_requests)
      → Boards ideal per_fiber batches
          (record s { idle_fibers = idle })
          (board_batches ideal per_fiber pop_order batches idle s)
  unfolding board_batches
  board_batches-Boards [] idle s a h = record {
    same = λ p. refl;
    ready = λ x. x;
    fibers = λ q. refl;
    strobes = refl;
    flown = λ e p. omega arith;
  }
  board_batches-Boards (b ∷ rest) [] s a h = record {
    same = λ p. refl;
    ready = λ x. x;
    fibers = λ q. refl;
    strobes = refl;
    flown = λ e p. absurd (no_idle per_fiber (length rest) e);
  }
  board_batches-Boards ((k, b) ∷ rest) (fiber ∷ idle) s a h =
      let gone : (p : ℕ)
          → seen p (remove_all b.reqs s.pending_requests) + seen p b.reqs
            ≡ seen p s.pending_requests =
        remove_all-seen b.reqs s.pending_requests (λ p. omega (arith, h p)) in
      let v : Boards ideal per_fiber rest
          (record (launched fiber b s) {
            idle_fibers = if per_fiber then idle else pop_order (fiber ∷ idle);
          })
          (board_batches ideal per_fiber pop_order rest
            (if per_fiber then idle else pop_order (fiber ∷ idle)) (launched fiber b s)) =
        board_batches-Boards rest (if per_fiber then idle else pop_order (fiber ∷ idle))
          (launched fiber b s) a.1 (λ p. omega (arith, h p, gone p)) in
      rw (board-launched ideal fiber k per_fiber b s a.0) (record {
        same = λ p. omega (arith, v.same p, gone p);
        ready = λ x. v.ready ((a.0.0, a.0.1, (b.meta, a.0.2)), x);
        fibers = λ q. v.fibers q ∙ engaged_rest pop_order shuffles per_fiber q fiber b idle s;
        strobes = v.strobes;
        flown = λ e p. omega (
          arith,
          gone p,
          v.flown (Enough-rest pop_order shuffles per_fiber (length rest) fiber idle e) p,
        );
      })

pub data Dispatched (ideal : ℕ) (per_fiber : Bool) (s t : BatcherState) : Type 0 where
  waited :
      (length s.pending_requests ≡ 0) ⊎ ((length s.pending_requests < ideal) × (s.strobes < 2))
      → t ≡ s
      → Dispatched ideal per_fiber s t
  flew :
      t.strobes ≡ 0
      → ((p : ℕ) → tracked p t ≡ tracked p s)
      → (All (Ready ideal) s.flights → All (Ready ideal) t.flights)
      → ((q : ℕ) → engaged per_fiber q t ≡ engaged per_fiber q s)
      → (Enough per_fiber (length (sort_batches ideal s.pending_requests)) (length s.idle_fibers)
          → t.pending_requests ≡ [])
      → Dispatched ideal per_fiber s t

unseen : (xs : List ImageRequest) → ((p : ℕ) → seen p xs ≡ 0) → xs ≡ []
unseen [] h = refl
unseen (x ∷ xs) h = absurd (ground (arith, h x.rid))

module _ (ideal : ℕ) (per_fiber : Bool) (pop_order : List ℕ → List ℕ)
    (shuffles : Shuffles pop_order) (positive : 0 < ideal) (s : BatcherState) where
  flight-Outcome :
      Sorted ideal s.pending_requests (sort_batches ideal s.pending_requests)
      → Dispatched ideal per_fiber s (
          board_batches ideal per_fiber pop_order
            (sort_batches ideal s.pending_requests)
            s.idle_fibers
            (record s { strobes = 0 }))
  flight-Outcome sorted =
      let v : Boards ideal per_fiber (sort_batches ideal s.pending_requests)
          (record s { strobes = 0 })
          (board_batches ideal per_fiber pop_order (sort_batches ideal s.pending_requests)
            s.idle_fibers (record s { strobes = 0 })) =
        board_batches-Boards ideal per_fiber pop_order shuffles
          (sort_batches ideal s.pending_requests) s.idle_fibers (record s { strobes = 0 })
          sorted.proper (λ p. omega (arith, sorted.counted p)) in
      flew v.strobes v.same v.ready v.fibers
        (λ e. unseen _ (λ p. omega (arith, v.flown e p, sorted.counted p)))

  -- With a positive ideal batch size, and whatever the order in which fibers are popped,
  -- `board_flights` changes nothing only where nothing is pending, or
  -- fewer requests than the ideal size before the second strobe. Otherwise it resets the strobes, and
  -- each request is pending or in a flight as often as before. Each new flight has from one request to
  -- the ideal number, with equal static parameters. Each fiber is idle as often as before, or, with a
  -- program for each fiber, idle or in a flight. With idle fibers for all batches no request is left.
  pub board_flights-Dispatched :
      Dispatched ideal per_fiber s (board_flights ideal per_fiber pop_order s)
  unfolding board_flights
  board_flights-Dispatched =
      let waiting : ℕ = length s.pending_requests in
      elim (Bool-cases (waiting == 0)) [
        | inl h ↦ waited (inl (ground arith)) (rw h refl)
        | inr h ↦ elim (Bool-cases (ltb waiting ideal && ltb s.strobes 2)) [
          | inl k ↦ waited (inr (ground arith)) (rw (h, k) refl)
          | inr k ↦
              rw (h, k) (flight-Outcome (sort_batches-Sorted ideal positive s.pending_requests))
        ]
      ]
