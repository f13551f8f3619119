-- ===== src/Serving/Executor/Prepared.antt =====
-- What an executor prepares: which calls raise, and what the arguments hold otherwise.
use shark_platform.Prelude.{
  ℕ, ◌*◌, ◌/◌, ◌≤◌, ◌<◌, ◌≡◌, refl, false, ◌⊎◌, inl, inr, Option, none, some, List, [], ◌∷◌, ◌++◌,
  ap, map, arith, length, length-map, length-take, All, ltb, leb, ◌==◌, Bool-cases, Option-cases,
  if◌then◌else◌,
}
use shark_platform.Prelude.Ceil.{ceil_div, le-ceil_div, ceil_div-least}
use shark_platform.Prelude.Exec.{Result, ok, err, value_error, runtime_error, assertion_error}
use shark_platform.Serving.Requests.{
  InferencePhase, prefill, decode, ExecRequest, cache_page_indices,
}
use shark_platform.Serving.Executor.{
  ExecArgs, filled, populate, start_items, entry_point, from_start, greatest, slots, check_phase,
  token_width, token_items, seq_len, exec_args, prepare, last_token,
}
use shark_platform.Serving.Executor.Rows.{padded, padded_rows, filled-fits, populate-fits}

-- The batch size `bs` is that of an entry point, and each entry point before it is too small.
pub data IsEntry (n bs : ℕ) (entrypoints : List ℕ) : Type 0 where
  entry :
      (before after : List ℕ)
      → entrypoints ≡ before ++ bs ∷ after
      → All (λ size. size < n) before
      → n ≤ bs
      → IsEntry n bs entrypoints

IsEntry-later :
    (n bs size : ℕ) (entrypoints : List ℕ)
    → size < n
    → IsEntry n bs entrypoints
    → IsEntry n bs (size ∷ entrypoints)
IsEntry-later n bs size entrypoints small (entry before after whole a fits) =
    entry (size ∷ before) after (ap (◌∷◌ size) whole) (small, a) fits

IsEntry-fits : (n bs : ℕ) (entrypoints : List ℕ) → IsEntry n bs entrypoints → n ≤ bs
IsEntry-fits n bs entrypoints (entry before after whole a fits) = fits

-- The first entry point that is large enough.
data Entry (n : ℕ) (entrypoints : List ℕ) (out : Result ℕ) : Type 0 where
  found : (bs : ℕ) → IsEntry n bs entrypoints → out ≡ ok bs → Entry n entrypoints out
  lacking : All (λ bs. bs < n) entrypoints → out ≡ err runtime_error → Entry n entrypoints out

entry_point-Entry : (n : ℕ) (entrypoints : List ℕ) → Entry n entrypoints (entry_point n entrypoints)
unfolding entry_point
entry_point-Entry n [] = lacking tt refl
entry_point-Entry n (bs ∷ rest) = elim (Bool-cases (leb n bs)) [
  | inl fits ↦ found bs (entry [] rest refl tt (ground arith)) (rw fits)
  | inr small ↦ elim (entry_point-Entry n rest) [
    | found b h run ↦ found b (IsEntry-later n b bs rest (ground arith) h) (rw small run)
    | lacking h run ↦ lacking (ground arith, h) (rw small run)
  ]
]

-- The greatest of some numbers bounds them, and is one of them.
greatest-bounds : (m n : ℕ) (xs : List ℕ) → greatest m xs ≤ n → (m ≤ n) × All (λ x. x ≤ n) xs
greatest-bounds m n [] h = (h, tt)
greatest-bounds m n (x ∷ xs) h =
    let (a, b) = greatest-bounds (if ltb m x then x else m) n xs h in
    (ground arith, (ground arith, b))

greatest-le : (m n : ℕ) (xs : List ℕ) → m ≤ n → All (λ x. x ≤ n) xs → greatest m xs ≤ n
greatest-le m n [] h a = h
greatest-le m n (x ∷ xs) h a = greatest-le (if ltb m x then x else m) n xs (ground (arith, a.0)) a.1

All-map :
    {A : Type 0} (f : A → ℕ) (n : ℕ) (xs : List A)
    → All (λ k. k ≤ n) (map f xs)
    → All (λ x. f x ≤ n) xs
All-map f n [] a = tt
All-map f n (x ∷ xs) a = (a.0, All-map f n xs a.1)

map-All :
    {A : Type 0} (f : A → ℕ) (n : ℕ) (xs : List A)
    → All (λ x. f x ≤ n) xs
    → All (λ k. k ≤ n) (map f xs)
map-All f n [] a = tt
map-All f n (x ∷ xs) a = (a.0, map-All f n xs a.1)

Rows_of :
    {A : Type 0} (f : A → List ℕ) (n : ℕ) (P : A → Type 0) (xs : List A)
    → ((a : A) → P a → length (f a) ≤ n)
    → All P xs
    → All (λ row. length row ≤ n) (map f xs)
Rows_of f n P [] h a = tt
Rows_of f n P (x ∷ xs) h a = (h x a.0, Rows_of f n P xs h a.1)

-- The arguments as they ought to be: the requests from the first row on, padding below them.
abbrev pub start_positions_of : InferencePhase → ℕ → List ExecRequest → Option (List ℕ)
start_positions_of prefill bs rs = none
start_positions_of decode bs rs = some (padded 1 bs (map (λ r. r.start_position) rs))

abbrev pub batch : InferencePhase → ℕ → ℕ → ℕ → List ExecRequest → ExecArgs
batch phase bs seq_stride blocks rs = record {
  batch_size = bs;
  block_count = blocks;
  tokens = padded_rows bs (token_width phase (blocks * seq_stride)) (map (token_items phase) rs);
  seq_lens = padded 1 bs (map (seq_len phase) rs);
  start_positions = start_positions_of phase bs rs;
  seq_block_ids = padded_rows bs blocks (map (cache_page_indices blocks) rs);
}

-- `blocks` is the least number of blocks with room for every request.
pub record Blocks (phase : InferencePhase) (seq_stride blocks : ℕ) (rs : List ExecRequest)
    : Type 0 where
  pub room : All (λ r. slots phase r ≤ blocks * seq_stride) rs
  pub fewest : (n : ℕ) → All (λ r. slots phase r ≤ n * seq_stride) rs → blocks ≤ n

last_token-short : (ts : List ℕ) → length (last_token ts) ≤ 1
last_token-short [] = omega arith
last_token-short (t ∷ []) = omega arith
last_token-short (t ∷ (u ∷ us)) = last_token-short (u ∷ us)

token_items-short :
    (phase : InferencePhase) (bsl : ℕ) (r : ExecRequest)
    → slots phase r ≤ bsl
    → length (token_items phase r) ≤ token_width phase bsl
token_items-short prefill bsl r h = omega (arith, h)
token_items-short decode bsl r h = last_token-short r.input_token_ids

cache_page_indices-short : (n : ℕ) (r : ExecRequest) → length (cache_page_indices n r) ≤ n
cache_page_indices-short n r = elim (Option-cases r.allocation) [
  | inl e ↦ rw e (omega arith)
  | inr (pages, e) ↦ rw e (omega (arith, length-take n pages))
]

anything : {A : Type 0} (xs : List A) → All (λ x. Unit {0}) xs
anything [] = tt
anything (x ∷ xs) = (tt, anything xs)

-- Every array of the batch has room for what is written into it.
module _ (phase : InferencePhase) (bs seq_stride blocks : ℕ) (rs : List ExecRequest)
    (h : length rs ≤ bs) where
  column-fits : (f : ExecRequest → ℕ) → filled 1 bs (map f rs) ≡ ok (padded 1 bs (map f rs))
  column-fits f = filled-fits 1 bs (map f rs) (omega (arith, length-map rs f, h))

  rows-fit :
      (f : ExecRequest → List ℕ) (size : ℕ)
      → All (λ row. length row ≤ size) (map f rs)
      → populate bs size (map f rs) ≡ ok (padded_rows bs size (map f rs))
  rows-fit f size = populate-fits bs size (map f rs) (omega (arith, length-map rs f, h))

  starts-fit : start_items phase bs rs ≡ ok (start_positions_of phase bs rs)
  starts-fit = elim phase as (λ p. start_items p bs rs ≡ ok (start_positions_of p bs rs)) [
    | prefill ↦ refl
    | decode ↦ rw (column-fits (λ r. r.start_position)) refl
  ]

  exec_args-batch :
      All (λ r. slots phase r ≤ blocks * seq_stride) rs
      → exec_args phase bs (blocks * seq_stride) blocks rs
        ≡ ok (batch phase bs seq_stride blocks rs)
  unfolding exec_args
  exec_args-batch room =
      rw
        (
          rows-fit (token_items phase) (token_width phase (blocks * seq_stride))
              (Rows_of (token_items phase) _ _ rs (token_items-short phase _) room),
          starts-fit,
          column-fits (seq_len phase),
          rows-fit (cache_page_indices blocks) blocks (
              Rows_of (cache_page_indices blocks) _ _ rs (λ r u. cache_page_indices-short blocks r)
                (anything rs)),
        )
        refl

-- The requests of a prefill start at 0, or not all of them do.
from_start_cases :
    (rs : List ExecRequest)
    → ((from_start rs ≡ ok tt) × All (λ r. r.start_position ≡ 0) rs)
      ⊎ ((from_start rs ≡ err assertion_error) × ¬ All (λ r. r.start_position ≡ 0) rs)
unfolding from_start
from_start_cases [] = inl (refl, tt)
from_start_cases (r ∷ rs) = elim (Bool-cases (r.start_position == 0)) [
  | inr late ↦ inr (rw late refl, λ a. ground (arith, a.0))
  | inl zero_start ↦ elim (from_start_cases rs) [
    | inl (run, a) ↦ inl (rw (zero_start, run) refl, (ground arith, a))
    | inr (run, a) ↦ inr (rw (zero_start, run) refl, λ b. a b.1)
  ]
]

-- The test that an executor makes of its requests: those of a prefill start at position 0.
abbrev pub IsAllowed : InferencePhase → List ExecRequest → Type 0
IsAllowed prefill rs = All (λ r. r.start_position ≡ 0) rs
IsAllowed decode rs = Unit {0}

pub data PrepareOutcome (phase : InferencePhase) (seq_stride : ℕ) (entrypoints : List ℕ)
    (rs : List ExecRequest) (out : Result ExecArgs) : Type 0 where
  prepared :
      (bs blocks : ℕ)
      → IsEntry (length rs) bs entrypoints
      → IsAllowed phase rs
      → 0 < length rs
      → Blocks phase seq_stride blocks rs
      → out ≡ ok (batch phase bs seq_stride blocks rs)
      → PrepareOutcome phase seq_stride entrypoints rs out
  no_entry_point :
      All (λ bs. bs < length rs) entrypoints
      → out ≡ err runtime_error
      → PrepareOutcome phase seq_stride entrypoints rs out
  not_from_start :
      (bs : ℕ)
      → IsEntry (length rs) bs entrypoints
      → ¬ IsAllowed phase rs
      → out ≡ err assertion_error
      → PrepareOutcome phase seq_stride entrypoints rs out
  no_request :
      (bs : ℕ)
      → IsEntry (length rs) bs entrypoints
      → rs ≡ []
      → out ≡ err value_error
      → PrepareOutcome phase seq_stride entrypoints rs out

Checked : InferencePhase → List ExecRequest → Type 0
Checked phase rs =
    (IsAllowed phase rs × (check_phase phase rs ≡ ok tt))
    ⊎ ((¬ IsAllowed phase rs) × (check_phase phase rs ≡ err assertion_error))

check_phase-Checked : (phase : InferencePhase) (rs : List ExecRequest) → Checked phase rs
unfolding Checked
check_phase-Checked decode rs = inl (tt, refl)
check_phase-Checked prefill rs = elim (from_start_cases rs) [
  | inl (run, a) ↦ inl (a, run)
  | inr (run, a) ↦ inr (a, run)
]

module _ (phase : InferencePhase) (seq_stride : ℕ) (positive : 0 < seq_stride) where
  longest_of : ExecRequest → List ExecRequest → ℕ
  longest_of r rs = greatest (slots phase r) (map (slots phase) rs)

  the_Blocks :
      (r : ExecRequest) (rs : List ExecRequest)
      → Blocks phase seq_stride (ceil_div (longest_of r rs) seq_stride) (r ∷ rs)
  unfolding longest_of
  the_Blocks r rs =
      let (a, b) =
        greatest-bounds (slots phase r) _ (map (slots phase) rs)
          (le-ceil_div (longest_of r rs) seq_stride positive) in
      record {
        room = (a, All-map (slots phase) _ rs b);
        fewest = λ n c. ceil_div-least (longest_of r rs) seq_stride n positive (
            greatest-le (slots phase r) _ (map (slots phase) rs) c.0
              (map-All (slots phase) _ rs c.1));
      }

  outcome_of :
      (entrypoints : List ℕ) (rs : List ExecRequest)
      → Entry (length rs) entrypoints (entry_point (length rs) entrypoints)
      → Checked phase rs
      → PrepareOutcome phase seq_stride entrypoints rs (prepare phase seq_stride entrypoints rs)
  unfolding prepare Checked longest_of
  outcome_of entrypoints rs (lacking h run) c = no_entry_point h (rw run refl)
  outcome_of entrypoints rs (found bs h run) (inr (late, check)) =
      not_from_start bs h late (rw (run, check) refl)
  outcome_of entrypoints [] (found bs h run) (inl (_, check)) =
      no_request bs h refl (rw (run, check) refl)
  outcome_of entrypoints (r ∷ rs) (found bs h run) (inl (allowed, check)) =
      let blocks : ℕ = ceil_div (longest_of r rs) seq_stride in
      let whole : blocks * seq_stride / seq_stride ≡ blocks = grind arith in
      let divides : (seq_stride == 0) ≡ false = ground arith in
      prepared bs blocks h allowed (omega arith) (the_Blocks r rs) (
        rw (run, check, divides, whole)
          (exec_args-batch phase bs seq_stride blocks (r ∷ rs) (IsEntry-fits _ _ _ h)
            (the_Blocks r rs).room))

  -- An executor with a positive page size ends its preparation in exactly one of four ways. Where every
  -- entry point is smaller than the number of requests, it raises. Otherwise it takes the first entry
  -- point that is large enough; then it raises where the executor is a prefill's and not all requests
  -- start at position 0, and, if that is so, where there is no request. Otherwise the batch has
  -- the size of this entry point, and the fewest blocks with room for every request, and every array
  -- holds the values of the requests and then padding, which is 1 for lengths and positions and 0 for
  -- tokens and blocks.
  pub prepare-PrepareOutcome :
      (entrypoints : List ℕ) (rs : List ExecRequest)
      → PrepareOutcome phase seq_stride entrypoints rs (prepare phase seq_stride entrypoints rs)
  prepare-PrepareOutcome entrypoints rs =
      outcome_of entrypoints rs (entry_point-Entry (length rs) entrypoints)
        (check_phase-Checked phase rs)
