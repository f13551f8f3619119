-- ===== src/Examples/Serving.antt =====
-- The executor and the generation at concrete requests.
use shark_platform.Prelude.{
  ℕ, ◌≡◌, ◌+◌, refl, Option, some, List, [], ◌∷◌, arith, length, drop, All,
}
use shark_platform.Prelude.Exec.{ok}
use shark_platform.Prelude.Ceil.{ceil_div}
use shark_platform.Serving.Requests.{decode, ExecRequest}
use shark_platform.Serving.Executor.{prepare, entry_point, exec_args, populate, filled}
use shark_platform.Serving.Executor.Prepared.{PrepareOutcome, prepare-PrepareOutcome}
use shark_platform.Serving.Generate.{
  generate, decode_loop, GenerateOutcome, generate-GenerateOutcome, LengthDoubled,
  generate-LengthDoubled, length-generate,
}

-- Two decode requests with pages of 4 tokens: one has 3 tokens, the other 5.
abbrev requests : List ExecRequest
requests =
    record {
      phase = decode;
      start_position = 2;
      input_token_ids = 7 ∷ 8 ∷ 9 ∷ [];
      allocation = some (3 ∷ []);
    }
    ∷ record {
      phase = decode;
      start_position = 4;
      input_token_ids = 1 ∷ 2 ∷ 3 ∷ 4 ∷ 5 ∷ [];
      allocation = some (6 ∷ 2 ∷ 9 ∷ []);
    }
    ∷ []

prepared_blocks :
    prepare decode 4 (1 ∷ 4 ∷ 64 ∷ []) requests
    ≡ ok (record {
      batch_size = 4;
      block_count = 2;
      tokens = (9 ∷ []) ∷ (5 ∷ []) ∷ (0 ∷ []) ∷ (0 ∷ []) ∷ [];
      seq_lens = 5 ∷ 9 ∷ 1 ∷ 1 ∷ [];
      start_positions = some (2 ∷ 4 ∷ 1 ∷ 1 ∷ []);
      seq_block_ids = (3 ∷ 0 ∷ []) ∷ (6 ∷ 2 ∷ []) ∷ (0 ∷ 0 ∷ []) ∷ (0 ∷ 0 ∷ []) ∷ [];
    })
unfolding prepare entry_point exec_args populate filled ceil_div
prepared_blocks = refl

prepare-PrepareOutcome_example :
    PrepareOutcome decode 4 (1 ∷ 4 ∷ 64 ∷ []) requests (prepare decode 4 (1 ∷ 4 ∷ 64 ∷ []) requests)
prepare-PrepareOutcome_example =
    prepare-PrepareOutcome decode 4 (omega arith) (1 ∷ 4 ∷ 64 ∷ []) requests

-- The i-th submission is answered with the token 10 + i.
abbrev counting : ℕ → Option ℕ
counting i = some (10 + i)

-- The end token ends a generation in the decode rounds, and not where the prefill gives it.
past_prefill_end : (generate counting 10 (7 ∷ 8 ∷ []) 2).result_token_ids ≡ 10 ∷ 11 ∷ 12 ∷ []
unfolding generate decode_loop
past_prefill_end = refl

generate-GenerateOutcome_example :
    GenerateOutcome 12 5 (7 ∷ 8 ∷ []) (generate counting 12 (7 ∷ 8 ∷ []) 5)
generate-GenerateOutcome_example = generate-GenerateOutcome counting 12 (7 ∷ 8 ∷ []) 5

generate-LengthDoubled_example :
    All LengthDoubled (drop 1 (generate counting 12 (7 ∷ 8 ∷ []) 5).submitted)
generate-LengthDoubled_example = generate-LengthDoubled counting 12 (7 ∷ 8 ∷ []) 5

length-generate_example : length (generate counting 2 (7 ∷ 8 ∷ []) 5).result_token_ids ≡ 6
length-generate_example =
    length-generate counting 2 (λ i. 10 + i) (λ i. refl) (λ i e. absurd (omega (arith, e)))
      (7 ∷ 8 ∷ []) 5
