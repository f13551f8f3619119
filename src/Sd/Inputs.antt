-- ===== src/Sd/Inputs.antt =====
-- io_struct.py of the Stable Diffusion application: what a client sends, and the checks of `post_init`
-- that the server makes before anything else. The identifiers of `uuid` are a parameter.
pub mod Checked
use shark_platform.Prelude.{
  ℕ, zero, suc, Bool, true, false, ◌&&◌, ◌||◌, not, List, [], ◌∷◌, ◌++◌, length, ◌==◌,
  if◌then◌else◌,
}
use shark_platform.Prelude.Exec.{Result, ok, err, value_error, type_error, attempt, guard}

-- A value: `None`, a text, a number, a list of token ids, or the class `str` itself.
pub data Value : Type 0 where
  nothing str_class : Value
  text ids : List ℕ → Value
  number : ℕ → Value

-- A parameter for all images at once, or a list of them.
pub data Input : Type 0 where
  single : Value → Input
  several : List Value → Input

pub record GenerateReqInput : Type 0 where
  pub prompt : Input
  pub neg_prompt : Input
  pub height : Input
  pub width : Input
  pub steps : Input
  pub guidance_scale : Input
  pub seed : Input
  pub input_ids : Input
  pub neg_input_ids : Input
  pub output_type : Input
  pub rid : Input

abbrev pub is_missing : Input → Bool
is_missing (single nothing) = true
is_missing x = false

-- if isinstance(self.prompt, str): self.prompt = [str]
abbrev pub listed : Input → Input
listed (single (text t)) = several (str_class ∷ [])
listed x = x

-- Neither or both of `prompt` and `input_ids` are given.
abbrev pub is_ambiguous : GenerateReqInput → Bool
is_ambiguous g =
    (is_missing g.prompt && is_missing g.input_ids)
    || (not (is_missing g.prompt) && not (is_missing g.input_ids))

-- What is counted for `num_output_images`.
abbrev pub counted : GenerateReqInput → Input
counted g = if not (is_missing g.prompt) then g.prompt else g.input_ids

-- len(x)
abbrev pub size : Input → Result ℕ
size (several vs) = ok (length vs)
size (single (text t)) = ok (length t)
size (single (ids is)) = ok (length is)
size (single v) = err type_error

-- Whether a batchable argument is no list, or a list of one or of the full batch.
abbrev pub is_batchable : ℕ → Input → Bool
is_batchable n (single v) = true
is_batchable n (several vs) = not (not (length vs == n) && not (length vs == 1))

abbrev pub batchable_args : GenerateReqInput → List Input
batchable_args g =
    g.prompt ∷ g.neg_prompt ∷ g.height ∷ g.width ∷ g.steps ∷ g.guidance_scale ∷ g.seed ∷ g.input_ids
    ∷ g.neg_input_ids ∷ []

unfoldable pub all_batchable : ℕ → List Input → Bool
all_batchable n [] = true
all_batchable n (x ∷ xs) = is_batchable n x && all_batchable n xs

abbrev pub base64 : List ℕ
base64 = 98 ∷ 97 ∷ 115 ∷ 101 ∷ 54 ∷ 52 ∷ []

-- ["base64"] * n
abbrev pub repeat : ℕ → List Value
repeat zero = []
repeat (suc n) = text base64 ∷ repeat n

-- [self.height] if not isinstance(self.height, list) else self.height
abbrev pub dims : Input → List Value
dims (single v) = v ∷ []
dims (several vs) = vs

abbrev pub is_supported : Value → Bool
is_supported (number n) = n == 1024
is_supported v = false

unfoldable pub all_supported : List Value → Bool
all_supported [] = true
all_supported (v ∷ vs) = is_supported v && all_supported vs

module _ (uuid : ℕ → List ℕ) where
  -- [uuid.uuid4().hex for _ in range(n)]
  abbrev pub fresh_rids : ℕ → List Value
  fresh_rids zero = []
  fresh_rids (suc n) = fresh_rids n ++ text (uuid n) ∷ []

  abbrev pub rids : ℕ → Input → Result Input
  rids n (single nothing) = ok (several (fresh_rids n))
  rids n (single v) = err value_error
  rids n (several vs) = ok (several vs)

  abbrev pub output_types : ℕ → Input → Input
  output_types n (single nothing) = several (repeat n)
  output_types n x = x

  -- The request that is left, with `num_output_images`.
  unfoldable pub check_input : GenerateReqInput → Result (GenerateReqInput × ℕ)
  unfolding all_batchable all_supported
  check_input g =
      let g' = record g { prompt = listed g.prompt } in
      attempt (guard (not (is_ambiguous g)) value_error) (λ _. attempt (size (counted g')) (λ n.
        attempt (guard (all_batchable n (batchable_args g')) value_error) (λ _.
          attempt (rids n g.rid) (λ names.
            attempt (guard (all_supported (dims g.height ++ dims g.width)) value_error) (λ _.
              ok (record g' { rid = names; output_type = output_types n g.output_type }, n))))))
