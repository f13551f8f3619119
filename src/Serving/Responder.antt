-- ===== src/Serving/Responder.antt =====
-- `FastAPIResponder` of shortfin/python/shortfin/interop/fastapi/__init__.py. What it schedules on the
-- loop of the web server is a list in the order of the calls, since the loop runs what is scheduled in
-- that order. `B` are the bytes of a response.
pub mod Protocol
use shark_platform.Prelude.{
  Bool, true, false, Option, none, some, List, [], ◌∷◌, ◌++◌, if◌then◌else◌,
}
use shark_platform.Prelude.Exec.{Exec, ok, err, raise, update, assertion_error, os_error}

pub data Reply (B : Type 0) : Type 0 where
  content : B → Reply B
  server_error : Reply B

-- The result of the future, the start of a stream, and what is put into its queue, where `none` ends it.
pub data Event (B : Type 0) : Type 0 where
  response : Reply B → Event B
  stream : Event B
  part : Option B → Event B

-- `streaming` says that there is a queue, and `loop_closed` that the web server is shut down.
pub record Responder (B : Type 0) : Type 0 where
  pub responded : Bool
  pub streaming : Bool
  pub loop_closed : Bool
  pub scheduled : List (Event B)

abbrev pub new_responder : {B : Type 0} → Responder B
new_responder = record { responded = false; streaming = false; loop_closed = false; scheduled = [] }

-- A call of the responder, or the end of the web server.
pub data Call (B : Type 0) : Type 0 where
  sends : Reply B → Call B
  starts : Call B
  streams : Option B → Call B
  ensures : Call B
  closes : Call B

module _ {B : Type 0} where
  abbrev pub schedule : Event B → Responder B → Responder B
  schedule e r = record r { scheduled = r.scheduled ++ e ∷ [] }

  unfoldable pub send_response : Reply B → Exec (Responder B) (Unit {0})
  send_response reply r =
      if r.responded
      then raise assertion_error r
      else if r.loop_closed
      then raise os_error r
      else (ok tt, schedule (response reply) (record r { responded = true }))

  unfoldable pub start_response : Exec (Responder B) (Unit {0})
  start_response r =
      if r.responded
      then raise assertion_error r
      else if r.loop_closed
      then raise os_error r
      else (ok tt, schedule stream (record r { responded = true; streaming = true }))

  abbrev pub still_streaming : Option B → Bool
  still_streaming none = false
  still_streaming (some b) = true

  unfoldable pub stream_part : Option B → Exec (Responder B) (Unit {0})
  stream_part b r =
      if r.streaming
      then if r.loop_closed
        then raise os_error r
        else (ok tt, schedule (part b) (record r { streaming = still_streaming b }))
      else raise assertion_error r

  unfoldable pub ensure_response : Exec (Responder B) (Unit {0})
  ensure_response r =
      if r.responded
      then if r.streaming then stream_part none r else (ok tt, r)
      else send_response server_error r

  abbrev pub perform : Call B → Exec (Responder B) (Unit {0})
  perform (sends reply) = send_response reply
  perform starts = start_response
  perform (streams b) = stream_part b
  perform ensures = ensure_response
  perform closes = update (λ r. record r { loop_closed = true })

  -- A call that raises changes nothing, and others may follow.
  abbrev pub perform_all : List (Call B) → Responder B → Responder B
  perform_all [] r = r
  perform_all (call ∷ calls) r = perform_all calls (perform call r).1
