-- ===== src/Examples/Client.antt =====
-- Two prompts, whose processes append three tokens in turns; the text of tokens is these bytes.
use shark_platform.Prelude.{◌≡◌, refl, true, false, none, some, [], ◌∷◌}
use shark_platform.Prelude.Exec.{ok, ◌>>=◌, attempt}
use shark_platform.Serving.Responder.{
  stream, part, new_responder, start_response, stream_part, ensure_response,
}
use shark_platform.Serving.Client.{
  several, ClientRequest, Backend, Client, part_of, done, processes_of, stream_results,
  append_token, run_processes, respond, serve, serve_finally, run_from, run,
}
use shark_platform.Serving.Client.Outcome.{ClientOutcome, run-ClientOutcome}

abbrev backend : Backend
backend = record {
  encode = λ texts. ok ((1 ∷ []) ∷ (2 ∷ 3 ∷ []) ∷ []);
  decode = λ results. ok results;
  appended = λ ps. (0, 7) ∷ (1, 8) ∷ (0, 9) ∷ [];
  gather = λ ps. ok tt;
}

abbrev request : ClientRequest
request = record {
  text = some (several ((1 ∷ []) ∷ (2 ∷ 3 ∷ []) ∷ []));
  is_single = false;
  stream = true;
  max_completion_tokens = ok 2;
}

abbrev client : Client
client = record { responder = new_responder; result_token_ids = [] }

three_parts :
    (run backend request client).1.responder.scheduled
    ≡ stream
      ∷ part (some (part_of (7 ∷ [])))
      ∷ part (some (part_of (8 ∷ [])))
      ∷ part (some (part_of (7 ∷ 9 ∷ [])))
      ∷ part (some done)
      ∷ part none
      ∷ []
unfolding processes_of stream_results append_token run_processes respond serve serve_finally
    run_from start_response stream_part ensure_response ◌>>=◌ attempt
three_parts = refl

run-ClientOutcome_example :
    ClientOutcome backend true (processes_of backend request) (run backend request client)
run-ClientOutcome_example = run-ClientOutcome backend request
