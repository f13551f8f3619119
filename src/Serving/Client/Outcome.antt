-- ===== src/Serving/Client/Outcome.antt =====
-- What a client gets for its request, of a web server that runs.
use shark_platform.Prelude.{
  ℕ, ◌≡◌, refl, ap, ◌∙◌, Bool, true, false, ◌⊎◌, inl, inr, some, List, [], ◌∷◌, ◌++◌, map,
}
use mathlib.Core.List.{flatten, append_assoc, append-nil}
use shark_platform.Prelude.Exec.{Error, Result, ok, err, continue, ◌>>=◌, Result-cases}
use shark_platform.Serving.Responder.{
  content, server_error, Responder, new_responder, send_response, start_response, stream_part,
  ensure_response,
}
use shark_platform.Serving.Responder.Protocol.{
  parts_of-append, response_of, open_stream, ended_stream,
}
use shark_platform.Serving.Client.{
  Text, ClientRequest, Process, Backend, Client, on_responder, part_of, done, append_to,
  processes_of, result_text, stream_results, append_token, run_processes, respond, serve,
  serve_finally, run_from, run,
}

-- The tokens of each process after some were appended.
abbrev pub results_after : List (ℕ × ℕ) → List (List ℕ) → List (List ℕ)
results_after [] results = results
results_after (t ∷ ts) results = results_after ts (append_to t results)

abbrev part_before : Result Text → List Text → List Text
part_before (ok t) parts = part_of t ∷ parts
part_before (err e) parts = parts

module _ (b : Backend) where
  -- The parts of a stream: after each token, the text of its process so far.
  abbrev pub parts_after : List (ℕ × ℕ) → List (List ℕ) → List Text
  parts_after [] results = []
  parts_after ((i, token) ∷ ts) results =
      let now = append_to (i, token) results in
      part_before (result_text b i now) (parts_after ts now)

  abbrev pub nothing_yet : List Process → List (List ℕ)
  nothing_yet ps = map (λ (p : Process). []) ps

  abbrev client_of : Responder Text → List (List ℕ) → Client
  client_of r results = record { responder = r; result_token_ids = results }

  run_processes-silent :
      (ts : List (ℕ × ℕ)) (r : Responder Text) (results : List (List ℕ))
      → run_processes b false ts (client_of r results) ≡ client_of r (results_after ts results)
  unfolding run_processes append_token stream_results
  run_processes-silent [] r results = refl
  run_processes-silent (t ∷ ts) r results = run_processes-silent ts r (append_to t results)

  add_part :
      (x : Result Text) (bs : List Text) (results : List (List ℕ))
      → (continue x
          (λ t. on_responder (stream_part (some (part_of t))))
          (client_of (open_stream bs false) results)).1
        ≡ client_of (open_stream (bs ++ part_before x []) false) results
  unfolding stream_part
  add_part (ok t) bs results = rw (parts_of-append bs (part_of t)) refl
  add_part (err e) bs results = rw (append-nil bs) refl

  part_before_lem :
      (x : Result Text) (bs parts : List Text)
      → (bs ++ part_before x []) ++ parts ≡ bs ++ part_before x parts
  part_before_lem (ok t) bs parts = append_assoc bs (part_of t ∷ []) parts
  part_before_lem (err e) bs parts = rw (append-nil bs) refl

  run_processes-streaming :
      (ts : List (ℕ × ℕ)) (bs : List Text) (results : List (List ℕ))
      → run_processes b true ts (client_of (open_stream bs false) results)
        ≡ client_of (open_stream (bs ++ parts_after ts results) false) (results_after ts results)
  unfolding run_processes append_token stream_results
  run_processes-streaming [] bs results = rw (append-nil bs) refl
  run_processes-streaming ((i, token) ∷ ts) bs results =
      let now = append_to (i, token) results in
      let x = result_text b i now in
      ap (run_processes b true ts) (add_part x bs now)
      ∙ run_processes-streaming ts (bs ++ part_before x []) now
      ∙ ap (λ (parts : List Text). client_of (open_stream parts false) (results_after ts now))
          (part_before_lem x bs (parts_after ts now))

  -- What is left of a request that fails: an error, or the parts before, and the end of the stream.
  abbrev pub refused : Bool → List Text → Responder Text
  refused true bs = ended_stream bs false
  refused false bs = response_of server_error false

  abbrev pub final_results : List Process → List (List ℕ)
  final_results ps = results_after (b.appended ps) (nothing_yet ps)

  pub data ClientOutcome (stream : Bool) (launched : Result (List Process))
      (out : Result (Unit {0}) × Client) : Type 0 where
    not_launched :
        (e : Error)
        → launched ≡ err e
        → out.0 ≡ err e
        → out.1.responder ≡ refused stream []
        → ClientOutcome stream launched out
    broken_off :
        (ps : List Process) (e : Error)
        → launched ≡ ok ps
        → (b.gather ps ≡ err e) ⊎ ((stream ≡ false) × (b.decode (final_results ps) ≡ err e))
        → out.0 ≡ err e
        → out.1.responder ≡ refused stream (parts_after (b.appended ps) (nothing_yet ps))
        → ClientOutcome stream launched out
    streamed :
        (ps : List Process)
        → launched ≡ ok ps
        → b.gather ps ≡ ok tt
        → stream ≡ true
        → out.0 ≡ ok tt
        → out.1.responder
          ≡ ended_stream (parts_after (b.appended ps) (nothing_yet ps) ++ done ∷ []) false
        → ClientOutcome stream launched out
    answered :
        (ps : List Process) (texts : List Text)
        → launched ≡ ok ps
        → b.gather ps ≡ ok tt
        → stream ≡ false
        → b.decode (final_results ps) ≡ ok texts
        → out.0 ≡ ok tt
        → out.1.responder ≡ response_of (content (flatten (map part_of texts))) false
        → ClientOutcome stream launched out

  abbrev start : Client
  start = client_of new_responder []

  run_from-failed :
      (stream : Bool) (e : Error) → ClientOutcome stream (err e) (run_from b stream (err e) start)
  unfolding run_from serve_finally serve start_response ensure_response send_response stream_part
      ◌>>=◌
  run_from-failed true e = not_launched e refl refl refl
  run_from-failed false e = not_launched e refl refl refl

  module _ (ps : List Process) where
    run_from-streaming : ClientOutcome true (ok ps) (run_from b true (ok ps) start)
    unfolding run_from serve_finally serve respond start_response ensure_response stream_part ◌>>=◌
    run_from-streaming =
        rw (run_processes-streaming (b.appended ps) [] (nothing_yet ps))
          (elim (Result-cases (b.gather ps)) [
            | inr (e, bad) ↦ rw bad (broken_off ps e refl (inl bad) refl refl)
            | inl (_, fine) ↦
                rw (fine, parts_of-append (parts_after (b.appended ps) (nothing_yet ps)) done)
                  (streamed ps refl fine refl refl refl)
          ])

    run_from-silent : ClientOutcome false (ok ps) (run_from b false (ok ps) start)
    unfolding run_from serve_finally serve respond ensure_response send_response ◌>>=◌
    run_from-silent =
        rw (run_processes-silent (b.appended ps) new_responder (nothing_yet ps))
          (elim (Result-cases (b.gather ps)) [
            | inr (e, bad) ↦ rw bad (broken_off ps e refl (inl bad) refl refl)
            | inl (_, fine) ↦ elim (Result-cases (b.decode (final_results ps))) [
              | inr (e, bad) ↦ rw (fine, bad) (broken_off ps e refl (inr (refl, bad)) refl refl)
              | inl (texts, good) ↦
                  rw (fine, good) (answered ps texts refl fine refl good refl refl)
            ]
          ])

  run_from-ClientOutcome :
      (stream : Bool) (launched : Result (List Process))
      → ClientOutcome stream launched (run_from b stream launched start)
  run_from-ClientOutcome stream (err e) = run_from-failed stream e
  run_from-ClientOutcome true (ok ps) = run_from-streaming ps
  run_from-ClientOutcome false (ok ps) = run_from-silent ps

  -- A client of a web server that runs gets one response or a stream that is ended. If the prompts
  -- cannot be tokenized or their processes not be launched, if the wait for them raises, or if their
  -- results cannot be decoded for one response, then the request raises this, and the response is an
  -- error or the stream ends after the parts so far. Otherwise the response holds the texts of all
  -- results in the order of the prompts, or the stream has, for each token in the order in which they
  -- come, the text so far of its process if it can be decoded, and then the mark of the end.
  pub run-ClientOutcome :
      (q : ClientRequest)
      → ClientOutcome q.stream
          (processes_of b q)
          (run b q (record { responder = new_responder; result_token_ids = [] }))
  run-ClientOutcome q = run_from-ClientOutcome q.stream (processes_of b q)
