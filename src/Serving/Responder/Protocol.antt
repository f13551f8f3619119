-- ===== src/Serving/Responder/Protocol.antt =====
-- What the web server sees: one response, or one stream that is ended once, and nothing after it.
use shark_platform.Prelude.{
  ◌≡◌, refl, ap, Bool, true, false, Option, none, some, List, [], ◌∷◌, ◌++◌, map,
}
use shark_platform.Prelude.Exec.{ok}
use shark_platform.Serving.Responder.{
  Reply, server_error, Event, response, stream, part, Responder, new_responder, send_response,
  start_response, stream_part, ensure_response, Call, sends, starts, streams, ensures, closes,
  perform, perform_all,
}

module _ {B : Type 0} where
  abbrev pub parts_of : List B → List (Event B)
  parts_of bs = map (λ b. part (some b)) bs

  abbrev pub response_of : Reply B → Bool → Responder B
  response_of x closed = record {
    responded = true;
    streaming = false;
    loop_closed = closed;
    scheduled = response x ∷ [];
  }

  abbrev pub open_stream : List B → Bool → Responder B
  open_stream bs closed = record {
    responded = true;
    streaming = true;
    loop_closed = closed;
    scheduled = stream ∷ parts_of bs;
  }

  abbrev pub ended_stream : List B → Bool → Responder B
  ended_stream bs closed = record {
    responded = true;
    streaming = false;
    loop_closed = closed;
    scheduled = stream ∷ (parts_of bs ++ part none ∷ []);
  }

  pub data Finished : Responder B → Type 0 where
    answered : (x : Reply B) (closed : Bool) → Finished (response_of x closed)
    streamed : (bs : List B) (closed : Bool) → Finished (ended_stream bs closed)

  pub data Protocol : Responder B → Type 0 where
    waiting : (closed : Bool) → Protocol (record new_responder { loop_closed = closed })
    streaming : (bs : List B) (closed : Bool) → Protocol (open_stream bs closed)
    finished : {r : Responder B} → Finished r → Protocol r

  pub parts_of-append :
      (bs : List B) (b : B) → parts_of bs ++ part (some b) ∷ [] ≡ parts_of (bs ++ b ∷ [])
  parts_of-append [] b = refl
  parts_of-append (x ∷ bs) b = ap (◌∷◌ (part (some x))) (parts_of-append bs b)

  send-Protocol : (x : Reply B) (r : Responder B) → Protocol r → Protocol (send_response x r).1
  unfolding send_response
  send-Protocol x _ (waiting true) = waiting true
  send-Protocol x _ (waiting false) = finished (answered x false)
  send-Protocol x _ (streaming bs c) = streaming bs c
  send-Protocol x _ (finished (answered y c)) = finished (answered y c)
  send-Protocol x _ (finished (streamed bs c)) = finished (streamed bs c)

  start-Protocol : (r : Responder B) → Protocol r → Protocol (start_response r).1
  unfolding start_response
  start-Protocol _ (waiting true) = waiting true
  start-Protocol _ (waiting false) = streaming [] false
  start-Protocol _ (streaming bs c) = streaming bs c
  start-Protocol _ (finished (answered y c)) = finished (answered y c)
  start-Protocol _ (finished (streamed bs c)) = finished (streamed bs c)

  stream-Protocol : (x : Option B) (r : Responder B) → Protocol r → Protocol (stream_part x r).1
  unfolding stream_part
  stream-Protocol x _ (waiting c) = waiting c
  stream-Protocol x _ (streaming bs true) = streaming bs true
  stream-Protocol none _ (streaming bs false) = finished (streamed bs false)
  stream-Protocol (some b) _ (streaming bs false) =
      rw (parts_of-append bs b) (streaming (bs ++ b ∷ []) false)
  stream-Protocol x _ (finished (answered y c)) = finished (answered y c)
  stream-Protocol x _ (finished (streamed bs c)) = finished (streamed bs c)

  ensure-Protocol : (r : Responder B) → Protocol r → Protocol (ensure_response r).1
  unfolding ensure_response
  ensure-Protocol _ (waiting c) = send-Protocol server_error _ (waiting c)
  ensure-Protocol _ (streaming bs c) = stream-Protocol none _ (streaming bs c)
  ensure-Protocol _ (finished (answered y c)) = finished (answered y c)
  ensure-Protocol _ (finished (streamed bs c)) = finished (streamed bs c)

  closes-Protocol : (r : Responder B) → Protocol r → Protocol (record r { loop_closed = true })
  closes-Protocol _ (waiting c) = waiting true
  closes-Protocol _ (streaming bs c) = streaming bs true
  closes-Protocol _ (finished (answered y c)) = finished (answered y true)
  closes-Protocol _ (finished (streamed bs c)) = finished (streamed bs true)

  perform-Protocol : (call : Call B) (r : Responder B) → Protocol r → Protocol (perform call r).1
  perform-Protocol (sends x) r v = send-Protocol x r v
  perform-Protocol starts r v = start-Protocol r v
  perform-Protocol (streams x) r v = stream-Protocol x r v
  perform-Protocol ensures r v = ensure-Protocol r v
  perform-Protocol closes r v = closes-Protocol r v

  perform_all-Protocol :
      (calls : List (Call B)) (r : Responder B) → Protocol r → Protocol (perform_all calls r)
  perform_all-Protocol [] r v = v
  perform_all-Protocol (call ∷ calls) r v =
      perform_all-Protocol calls (perform call r).1 (perform-Protocol call r v)

  -- While the web server runs, `ensure_response` does not raise, and finishes the response.
  ensure-Finished :
      (r : Responder B)
      → Protocol r
      → r.loop_closed ≡ false
      → ((ensure_response r).0 ≡ ok tt) × Finished (ensure_response r).1
  unfolding ensure_response send_response stream_part
  ensure-Finished _ (waiting true) alive = absurd (cc)
  ensure-Finished _ (waiting false) alive = (refl, answered server_error false)
  ensure-Finished _ (streaming bs true) alive = absurd (cc)
  ensure-Finished _ (streaming bs false) alive = (refl, streamed bs false)
  ensure-Finished _ (finished (answered y c)) alive = (refl, answered y c)
  ensure-Finished _ (finished (streamed bs c)) alive = (refl, streamed bs c)

  -- While the web server runs, and after any calls of a new responder, those included that raised:
  -- nothing is scheduled, or one response, or a stream whose queue is open, or one that is ended once and
  -- by its last part. Then `ensure_response` does not raise, and after it there is one response or an
  -- ended stream.
  pub perform_all-Finished :
      (calls : List (Call B))
      → (perform_all calls new_responder).loop_closed ≡ false
      → let r = perform_all calls new_responder in
        Protocol r × ((ensure_response r).0 ≡ ok tt) × Finished (ensure_response r).1
  perform_all-Finished calls alive =
      let v = perform_all-Protocol calls new_responder (waiting false) in
      let (run, done) = ensure-Finished (perform_all calls new_responder) v alive in (v, run, done)
