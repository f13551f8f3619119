-- ===== src/Examples/Responder.antt =====
-- A stream of two parts that its process does not end, and a second response after one.
use shark_platform.Prelude.{ℕ, ◌≡◌, refl, false, some, List, [], ◌∷◌}
use shark_platform.Prelude.Exec.{ok}
use shark_platform.Serving.Responder.{
  content, response, Responder, new_responder, send_response, start_response, stream_part,
  ensure_response, Call, sends, starts, streams, perform_all,
}
use shark_platform.Serving.Responder.Protocol.{Protocol, Finished, perform_all-Finished}

abbrev two_parts : List (Call ℕ)
two_parts = starts ∷ streams (some 5) ∷ sends (content 1) ∷ streams (some 6) ∷ []

abbrev left_open : Responder ℕ
left_open = perform_all two_parts new_responder

one_response :
    (perform_all {B = ℕ} (sends (content 7) ∷ sends (content 8) ∷ []) new_responder).scheduled
    ≡ response (content 7) ∷ []
unfolding send_response
one_response = refl

open_still : left_open.loop_closed ≡ false
unfolding send_response start_response stream_part
open_still = refl

perform_all-Finished_example :
    Protocol left_open
    × ((ensure_response left_open).0 ≡ ok tt)
    × Finished (ensure_response left_open).1
perform_all-Finished_example = perform_all-Finished two_parts open_still
