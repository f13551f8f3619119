-- ===== src/Serving/Client.antt =====
-- `ClientGenerateBatchProcess` of generate.py, over the responder of its web request. Texts are their
-- UTF-8 bytes. The generations run concurrently: the tokens that they append come as one sequence.
pub mod Outcome
use shark_platform.Prelude.{
  ℕ, Bool, true, false, Option, none, some, List, [], ◌∷◌, ◌++◌, map, get_or, set, if◌then◌else◌,
}
use mathlib.Core.List.{flatten}
use shark_platform.Prelude.Exec.{
  Exec, Result, ok, err, pure, continue, attempt, ◌>>=◌, ◌>>◌, value_error, not_implemented,
}
use shark_platform.Serving.Responder.{
  content, Responder, send_response, start_response, stream_part, ensure_response,
}

abbrev pub Text : Type 0
Text = List ℕ

pub data Prompt : Type 0 where
  one : Text → Prompt
  several : List Text → Prompt

-- What `encode` gets: a list, or the prompt itself.
pub data Texts : Type 0 where
  listed : List Prompt → Texts
  itself : Prompt → Texts

-- `max_completion_tokens` is what the lookup in `sampling_params` gives.
pub record ClientRequest : Type 0 where
  pub text : Option Prompt
  pub is_single : Bool
  pub stream : Bool
  pub max_completion_tokens : Result ℕ

pub record Process : Type 0 where
  pub input_token_ids : List ℕ
  pub max_completion_tokens : ℕ

-- The tokenizer, the tokens that the processes append, each with the index of its process, and what the
-- wait for them raises.
pub record Backend : Type 0 where
  pub encode : Texts → Result (List (List ℕ))
  pub decode : List (List ℕ) → Result (List Text)
  pub appended : List Process → List (ℕ × ℕ)
  pub gather : List Process → Result (Unit {0})

pub record Client : Type 0 where
  pub responder : Responder Text
  pub result_token_ids : List (List ℕ)

abbrev pub on_responder : Exec (Responder Text) (Unit {0}) → Exec Client (Unit {0})
on_responder m c = let (r, responder) = m c.responder in (r, record c { responder = responder })

-- b"data: " + text + b"\n\n"
abbrev pub part_of : Text → Text
part_of text = b'd' ∷ b'a' ∷ b't' ∷ b'a' ∷ b':' ∷ b' ' ∷ (text ++ 10 ∷ 10 ∷ [])

abbrev pub done : Text
done = part_of (b'[' ∷ b'D' ∷ b'O' ∷ b'N' ∷ b'E' ∷ b']' ∷ [])

abbrev pub texts_of : Bool → Prompt → Texts
texts_of true prompt = listed (prompt ∷ [])
texts_of false prompt = itself prompt

-- (result_text,) = ...
abbrev pub only : List Text → Result Text
only (t ∷ []) = ok t
only [] = err value_error
only (t ∷ (u ∷ us)) = err value_error

abbrev pub append_to : ℕ × ℕ → List (List ℕ) → List (List ℕ)
append_to (i, token) results = set results i (get_or results i [] ++ token ∷ [])

module _ (b : Backend) where
  abbrev pub tokenize : ClientRequest → Result (List (List ℕ))
  tokenize q = elim q.text [
    | none ↦ err not_implemented
    | some prompt ↦ b.encode (texts_of q.is_single prompt)
  ]

  -- The lookup is made for each input.
  abbrev pub launch : Result ℕ → List (List ℕ) → Result (List Process)
  launch limit [] = ok []
  launch limit (ids ∷ rest) = attempt limit λ n.
      attempt (launch limit rest)
        λ ps. ok (record { input_token_ids = ids; max_completion_tokens = n } ∷ ps)

  unfoldable pub processes_of : ClientRequest → Result (List Process)
  processes_of q = attempt (tokenize q) (launch q.max_completion_tokens)

  abbrev pub result_text : ℕ → List (List ℕ) → Result Text
  result_text i results = attempt (b.decode (get_or results i [] ∷ [])) only

  unfoldable pub stream_results : Bool → ℕ → Exec Client (Unit {0})
  stream_results false i c = pure tt c
  stream_results true i c =
      continue (result_text i c.result_token_ids)
        (λ t. on_responder (stream_part (some (part_of t)))) c

  unfoldable pub append_token : Bool → ℕ × ℕ → Exec Client (Unit {0})
  append_token stream (i, token) c =
      stream_results stream i
        (record c { result_token_ids = append_to (i, token) c.result_token_ids })

  -- What `append_token` raises ends its process, and no other one.
  unfoldable pub run_processes : Bool → List (ℕ × ℕ) → Client → Client
  run_processes stream [] c = c
  run_processes stream (t ∷ ts) c = run_processes stream ts (append_token stream t c).1

  unfoldable pub respond : Bool → Exec Client (Unit {0})
  unfolding ◌>>=◌
  respond true c = (on_responder (stream_part (some done)) >> on_responder (stream_part none)) c
  respond false c =
      continue (b.decode c.result_token_ids)
        (λ texts. on_responder (send_response (content (flatten (map part_of texts))))) c

  -- The body of the try, after the processes were launched or could not be.
  unfoldable pub serve : Bool → Result (List Process) → Exec Client (Unit {0})
  serve stream (err e) c = (err e, c)
  serve stream (ok ps) c =
      continue (b.gather ps) (λ _. respond stream)
        (run_processes stream (b.appended ps)
          (record c { result_token_ids = map (λ (p : Process). []) ps }))

  abbrev pub and_finally : Result (Unit {0}) → Result (Unit {0}) → Result (Unit {0})
  and_finally r (ok _) = r
  and_finally r (err e) = err e

  unfoldable pub serve_finally : Bool → Result (List Process) → Exec Client (Unit {0})
  serve_finally stream launched c =
      let (r, d) = serve stream launched c in
      let (s, last) = on_responder ensure_response d in (and_finally r s, last)

  -- What is streamed is started before the try.
  unfoldable pub run_from : Bool → Result (List Process) → Exec Client (Unit {0})
  unfolding ◌>>=◌
  run_from true launched = on_responder start_response >> serve_finally true launched
  run_from false launched = serve_finally false launched

  abbrev pub run : ClientRequest → Exec Client (Unit {0})
  run q = run_from q.stream (processes_of q)
