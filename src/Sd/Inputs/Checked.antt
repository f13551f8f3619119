-- ===== src/Sd/Inputs/Checked.antt =====
-- What a request that passes the checks is like, and what `from_batch` makes of it.
use mathlib.Core.Path.{subst}
use shark_platform.Prelude.{
  ℕ, zero, suc, ◌<◌, ◌≡◌, sym, refl, true, false, not, List, [], ◌∷◌, ◌++◌, ==_iff, ap, arith, map,
  length, get_or, All, if◌then◌else◌,
}
use shark_platform.Prelude.Exec.{ok, guard-ok, attempt-ok, ok-value}
use shark_platform.Sd.Inputs.{
  Value, nothing, str_class, text, ids, number, Input, single, several, GenerateReqInput,
  is_missing, listed, size, is_batchable, batchable_args, all_batchable, dims, is_supported,
  all_supported, check_input,
}
use shark_platform.Sd.Requests.{gen_inputs, exec_request, from_batch}
use shark_platform.Sd.Requests.Picked.{Fits, chosen, from_batch-chosen}

-- A request `g` that passed the checks and became `g'`, with `n` images.
pub record Checked (g g' : GenerateReqInput) (n : ℕ) : Type 0 where
  pub picks :
      (index rid : ℕ)
      → index < n
      → from_batch g' index rid ≡ ok (exec_request rid (map (chosen index) (gen_inputs g')))
  pub high : (index : ℕ) → index < n → chosen index g'.height ≡ number 1024
  pub wide : (index : ℕ) → index < n → chosen index g'.width ≡ number 1024
  pub lost : (t : List ℕ) → g.prompt ≡ single (text t) → (n ≡ 1) × (chosen 0 g'.prompt ≡ str_class)

is_batchable-Fits : (n index : ℕ) (x : Input) → index < n → is_batchable n x ≡ true → Fits index x
is_batchable-Fits n index (single v) h e = tt
is_batchable-Fits n index (several vs) h e = ground arith

all_batchable-Fits :
    (n index : ℕ) (xs : List Input) → index < n → all_batchable n xs ≡ true → All (Fits index) xs
unfolding all_batchable
all_batchable-Fits n index [] h e = tt
all_batchable-Fits n index (x ∷ xs) h e =
    (is_batchable-Fits n index x h (ground arith), all_batchable-Fits n index xs h (ground arith))

is_supported-number : (v : Value) → is_supported v ≡ true → v ≡ number 1024
is_supported-number nothing e = absurd (cc)
is_supported-number str_class e = absurd (cc)
is_supported-number (text t) e = absurd (cc)
is_supported-number (ids t) e = absurd (cc)
is_supported-number (number n) e = ap number ((==_iff n 1024).0 e)

get_or-supported :
    (vs : List Value) (i : ℕ)
    → all_supported vs ≡ true
    → i < length vs
    → get_or vs i nothing ≡ number 1024
unfolding all_supported
get_or-supported [] i e h = absurd (omega (arith, h))
get_or-supported (v ∷ vs) zero e h = is_supported-number v (ground arith)
get_or-supported (v ∷ vs) (suc i) e h = get_or-supported vs i (ground arith) (omega (arith, h))

chosen-supported :
    (index : ℕ) (x : Input)
    → Fits index x
    → all_supported (dims x) ≡ true
    → chosen index x ≡ number 1024
unfolding all_supported
chosen-supported index (single v) h e = is_supported-number v (ground arith)
chosen-supported index (several vs) h e = get_or-supported vs _ e (ground arith)

all_supported-append :
    (vs ws : List Value)
    → all_supported (vs ++ ws) ≡ true
    → (all_supported vs ≡ true) × (all_supported ws ≡ true)
unfolding all_supported
all_supported-append [] ws e = (refl, e)
all_supported-append (v ∷ vs) ws e =
    let later = all_supported-append vs ws (ground arith) in (ground arith, later.1)

-- What the checks have established when they are passed.
record Passed (uuid : ℕ → List ℕ) (g g' : GenerateReqInput) (n : ℕ) : Type 0 where
  batchable : all_batchable n (batchable_args g') ≡ true
  supported : all_supported (dims g.height ++ dims g.width) ≡ true
  same : (g'.prompt ≡ listed g.prompt) × ((g'.height ≡ g.height) × (g'.width ≡ g.width))
  sized : (is_missing g.prompt ≡ false) → size (listed g.prompt) ≡ ok n

listed_size :
    (prompt other : Input) {m : ℕ}
    → is_missing prompt ≡ false
    → size (if not (is_missing (listed prompt)) then listed prompt else other) ≡ ok m
    → size (listed prompt) ≡ ok m
listed_size (single nothing) other there e = absurd (cc)
listed_size (single str_class) other there e = e
listed_size (single (text t)) other there e = e
listed_size (single (ids t)) other there e = e
listed_size (single (number n)) other there e = e
listed_size (several vs) other there e = e

module _ (uuid : ℕ → List ℕ) (g : GenerateReqInput) {g' : GenerateReqInput} {n : ℕ} where
  check_input-Passed : check_input uuid g ≡ ok (g', n) → Passed uuid g g' n
  unfolding check_input
  check_input-Passed run =
      let (u, one_given, run1) = attempt-ok _ run in
      let (m, sized, run2) = attempt-ok _ run1 in
      let (v, batchable, run3) = attempt-ok _ run2 in
      let (names, named, run4) = attempt-ok _ run3 in
      let (w, supported, run5) = attempt-ok _ run4 in
      subst (λ p. Passed uuid g p.0 p.1) (ok-value run5)
        (record {
          batchable = guard-ok _ _ batchable;
          supported = guard-ok _ _ supported;
          same = (refl, (refl, refl));
          sized = λ there. listed_size g.prompt g.input_ids there sized;
        })

  -- A request that passes the checks has a value of each parameter for each of its images, and
  -- `from_batch` takes just those. Each image is 1024 wide and high. Where the prompt is one text, there
  -- is one image, and its prompt is not the text but the class `str`.
  pub check_input-Checked : check_input uuid g ≡ ok (g', n) → Checked g g' n
  check_input-Checked run =
      let h = check_input-Passed run in
      let fits : (index : ℕ) → index < n → All (Fits index) (batchable_args g') =
        λ index below. all_batchable-Fits n index (batchable_args g') below h.batchable in
      let (high, wide) = all_supported-append (dims g.height) (dims g.width) h.supported in
      record {
        picks = λ index rid below.
            let (a, (b, (c, (d, (e, (f, (s, rest))))))) = fits index below in
            from_batch-chosen g' index rid (a, (b, (c, (d, (e, (f, (s, tt)))))));
        high = λ index below.
            chosen-supported index g'.height (fits index below).1.1.0 (rw h.same.1.0 high);
        wide = λ index below.
            chosen-supported index g'.width (fits index below).1.1.1.0 (rw h.same.1.1 wide);
        lost = λ t e.
            let s : size (listed (single (text t))) ≡ ok n = rw e at (h.sized (rw e refl)) in
            (sym (ok-value s), rw (h.same.0, e) refl);
      }
