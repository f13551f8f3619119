-- ===== src/Sd/Batcher/Batches.antt =====
-- `sort_batches` files every request into one batch, of requests with equal parameters.
use mathlib.Core.Logic.{if_pos, if_neg}
use shark_platform.Prelude.{
  ℕ, suc, ◌+◌, ◌≤◌, ◌<◌, ◌≡◌, ◌≢◌, refl, sym, ap, true, List, [], ◌∷◌, ◌++◌, arith, length,
  length-append, All, leb, ◌==◌, if◌then◌else◌, Bool-cases, inl, inr,
}
use shark_platform.Prelude.Count.{total, total-append}
use shark_platform.Sd.Requests.{ImageRequest}
use shark_platform.Sd.Batcher.{
  Metas, req_metas, Metas-discrete, Batch, Place, joins, opens, find_batch, extend_batch,
  file_request, file_requests, sort_batches,
}

abbrev pub here : ℕ → ImageRequest → ℕ
here p r = if r.rid == p then 1 else 0

-- How often a request is in a list, and in the batches.
abbrev pub seen : ℕ → List ImageRequest → ℕ
seen p = total (here p)

abbrev pub filed : ℕ → List (ℕ × Batch) → ℕ
filed p = total (λ e. seen p e.1.reqs)

-- A batch of at least one request and no more than the ideal number, with the parameters of each.
abbrev pub Proper : ℕ → ℕ × Batch → Type 0
Proper ideal e =
    (0 < length e.1.reqs) × (length e.1.reqs ≤ ideal) × All (λ r. req_metas r ≡ e.1.meta) e.1.reqs

-- The keys count up from `k`.
abbrev Keyed : ℕ → List (ℕ × Batch) → Type 0
Keyed k [] = Unit
Keyed k ((j, b) ∷ rest) = (j ≡ k) × Keyed (suc k) rest

abbrev place_key : Place → ℕ
place_key (joins key next_key) = key
place_key (opens next_key) = next_key

All-snoc {ℓ κ} :
    {A : Type ℓ} (P : A → Type κ) (xs : List A) (y : A) → All P xs → P y → All P (xs ++ y ∷ [])
All-snoc P [] y h k = (k, tt)
All-snoc P (x ∷ xs) y h k = (h.0, All-snoc P xs y h.1 k)

-- What `find_batch` makes of the first batch.
data Head (ideal : ℕ) (metas : Metas) (next_key j : ℕ) (b : Batch) (rest : List (ℕ × Batch))
    (out : Place) : Type 0 where
  joined :
      length b.reqs < ideal
      → metas ≡ b.meta
      → out ≡ joins j next_key
      → Head ideal metas next_key j b rest out
  passed : out ≡ find_batch ideal metas (suc j) rest → Head ideal metas next_key j b rest out

find_batch-Head :
    (ideal : ℕ) (metas : Metas) (next_key j : ℕ) (b : Batch) (rest : List (ℕ × Batch))
    → Head ideal metas next_key j b rest (find_batch ideal metas next_key ((j, b) ∷ rest))
unfolding find_batch
find_batch-Head ideal metas next_key j b rest = elim (Bool-cases (leb ideal (length b.reqs))) [
  | inl full ↦ passed (rw full refl)
  | inr free ↦ elim (Metas-discrete b.meta metas) [
    | yes same ↦ joined (ground arith) (sym same) (rw (free, if_pos _ same) refl)
    | no other ↦ passed (rw (free, if_neg _ other) refl)
  ]
]

find_batch_bound :
    (ideal : ℕ) (metas : Metas) (k next_key : ℕ) (batches : List (ℕ × Batch))
    → Keyed k batches
    → k ≤ next_key
    → k ≤ place_key (find_batch ideal metas next_key batches)
unfolding find_batch
find_batch_bound ideal metas k next_key [] h n = n
find_batch_bound ideal metas k next_key ((j, b) ∷ rest) (e, h) n =
    let later : suc k ≤ place_key (find_batch ideal metas (suc j) rest) =
      find_batch_bound ideal metas (suc k) (suc j) rest h (omega (arith, e)) in
    elim (find_batch-Head ideal metas next_key j b rest) [
      | joined _ _ run ↦ rw run (omega (arith, e))
      | passed run ↦ rw run (omega (arith, later))
    ]

-- Filing a request adds it to the batches, once.
record Files (ideal k p : ℕ) (r : ImageRequest) (batches out : List (ℕ × Batch)) : Type 0 where
  keyed : Keyed k out
  some_batch : 0 < length out
  proper : All (Proper ideal) batches → All (Proper ideal) out
  counted : filed p out ≡ filed p batches + here p r

-- A place beyond the first key leaves the first batch alone.
file_later :
    (r : ImageRequest) (place : Place) (j : ℕ) (b : Batch) (rest : List (ℕ × Batch))
    → j < place_key place
    → (file_request r place ((j, b) ∷ rest)).1 ≡ (j, b) ∷ (file_request r place rest).1
unfolding file_request
file_later r (joins key next_key) j b rest h = ground arith
file_later r (opens next_key) j b rest h = ground arith

module _ (ideal : ℕ) (positive : 0 < ideal) (p : ℕ) (r : ImageRequest) where
  -- A request joins the batch at the head.
  Files-head :
      (k j : ℕ) (b : Batch) (rest : List (ℕ × Batch))
      → j ≡ k
      → Keyed (suc k) rest
      → length b.reqs < ideal
      → req_metas r ≡ b.meta
      → Files ideal k p r ((j, b) ∷ rest) (extend_batch j r ((j, b) ∷ rest))
  unfolding extend_batch
  Files-head k j b rest e h free same =
      let self : (j == j) ≡ true = ground arith in
      rw self (record {
        keyed = (e, h);
        some_batch = omega arith;
        proper = λ a. (
          (
            omega (arith, length-append b.reqs (r ∷ [])),
            omega (arith, length-append b.reqs (r ∷ [])),
            All-snoc (λ x. req_metas x ≡ b.meta) b.reqs r a.0.2 same,
          ),
          a.1,
        );
        counted = omega (arith, total-append (here p) b.reqs (r ∷ []));
      })

  Files-cons :
      (k j : ℕ) (b : Batch) (rest out : List (ℕ × Batch))
      → j ≡ k
      → Files ideal (suc k) p r rest out
      → Files ideal k p r ((j, b) ∷ rest) ((j, b) ∷ out)
  Files-cons k j b rest out e v = record {
    keyed = (e, v.keyed);
    some_batch = omega arith;
    proper = λ a. (a.0, v.proper a.1);
    counted = omega (arith, v.counted);
  }

  file_request-Files :
      (k next_key : ℕ) (batches : List (ℕ × Batch))
      → Keyed k batches
      → (batches ≡ [] → next_key ≡ k)
      → Files ideal k p r batches
          (file_request r (find_batch ideal (req_metas r) next_key batches) batches).1
  unfolding file_request find_batch
  file_request-Files k next_key [] h n = record {
    keyed = (n refl, tt);
    some_batch = omega arith;
    proper = λ a. ((omega arith, omega (arith, positive), (refl, tt)), tt);
    counted = omega arith;
  }
  file_request-Files k next_key ((j, b) ∷ rest) (e, h) n =
      let ih : Files ideal (suc k) p r rest
          (file_request r (find_batch ideal (req_metas r) (suc j) rest) rest).1 =
        file_request-Files (suc k) (suc j) rest h (λ _. ap suc e) in
      elim (find_batch-Head ideal (req_metas r) next_key j b rest) [
        | joined free same run ↦ rw run (Files-head k j b rest e h free same)
        | passed run ↦
            rw
              (
                run,
                file_later r (find_batch ideal (req_metas r) (suc j) rest) j b rest (
                    omega (
                      arith,
                      find_batch_bound ideal (req_metas r) (suc k) (suc j) rest h
                          (omega (arith, e)),
                    )),
              )
              (Files-cons k j b rest _ e ih)
      ]

-- Batches that hold each request as often as it was pending, under keys that count up.
pub record Sorted (ideal : ℕ) (rs : List ImageRequest) (batches : List (ℕ × Batch)) : Type 0 where
  pub counted : (p : ℕ) → filed p batches ≡ seen p rs
  pub proper : All (Proper ideal) batches

module _ (ideal : ℕ) (positive : 0 < ideal) where
  file_requests-Sorted :
      (rs : List ImageRequest) (next_key : ℕ) (batches : List (ℕ × Batch)) (held : ℕ → ℕ)
      → Keyed 0 batches
      → (batches ≡ [] → next_key ≡ 0)
      → All (Proper ideal) batches
      → ((p : ℕ) → filed p batches ≡ held p)
      → ((p : ℕ) → filed p (file_requests ideal rs (next_key, batches)) ≡ held p + seen p rs)
        × All (Proper ideal) (file_requests ideal rs (next_key, batches))
  unfolding file_requests
  file_requests-Sorted [] next_key batches held k n a c = (λ p. omega (arith, c p), a)
  file_requests-Sorted (r ∷ rs) next_key batches held k n a c =
      let placed : ℕ × List (ℕ × Batch) =
        file_request r (find_batch ideal (req_metas r) next_key batches) batches in
      let v : (p : ℕ) → Files ideal 0 p r batches placed.1 =
        λ p. file_request-Files ideal positive p r 0 next_key batches k n in
      let (counts, proper) =
        file_requests-Sorted rs placed.0 placed.1 (λ p. held p + here p r) ((v 0).keyed)
          (λ e. absurd (nonempty placed.1 (v 0).some_batch e)) ((v 0).proper a)
          (λ p. omega (arith, (v p).counted, c p)) in
      (λ p. omega (arith, counts p), proper)
    where
      nonempty : (xs : List (ℕ × Batch)) → 0 < length xs → xs ≢ []
      nonempty [] h e = elim h [ ]
      nonempty (x ∷ xs) h e = cc

  -- Where the ideal batch size is positive, `sort_batches` files every pending request into a batch,
  -- once for each time it is pending. Each batch has at least one request, no more than the ideal
  -- number, and only requests with the static parameters of the batch.
  pub sort_batches-Sorted : (rs : List ImageRequest) → Sorted ideal rs (sort_batches ideal rs)
  unfolding sort_batches
  sort_batches-Sorted rs =
      let (counts, proper) = file_requests-Sorted rs 0 [] (λ p. 0) tt (λ e. refl) tt (λ p. refl) in
      record { counted = λ p. omega (arith, counts p); proper = proper }
