-- ===== src/Server/Handler.antt =====
-- model_api_server/src/lib.rs: `handle_client`, the loop over one connection. The connection's
-- number, which only labels log lines and error texts, is left out; an error is a constructor.
-- The loop's fuel is one more than the bytes that the client still sends: each frame takes at
-- least four of them.
-- Where an event's frame cannot be written the source drops the slot's task; the model's state is then
-- the one that the task would have left.
pub mod Session
use chitin_model_api.Prelude.Lists.{length}
use chitin_model_api.Prelude.Result.{Result, ok, err}
use chitin_model_api.Prelude.Tests.{◌==◌, if◌then◌else◌}
use chitin_model_api.Prelude.Text.{Bytes, codes, decimal}
use chitin_model_api.Prelude.{
  ℕ, zero, suc, Bool, true, false, ◌||◌, List, [], ◌∷◌, ◌++◌, Option, none, some,
}
use chitin_model_api.Proto.{
  ClientMessage, ServerMessage, InferenceRequest, InferenceResponse, protocol_version,
}
use chitin_model_api.Server.Framed.{write_frame_async, read_frame_async}
use chitin_model_api.Server.Slot.{SlotHandle, Run}
use chitin_model_api.Server.Streaming.{Action, forwarded}
use chitin_model_api.Wire.{Bincode, IoError, Reader, Writer}

pub data HandlerError : Type 0 where
  read_hello write_hello read_failed write_failed : IoError → HandlerError
  protocol_mismatch : ℕ → HandlerError
  expected_hello : ClientMessage → HandlerError
  eof_before_hello duplicate_hello : HandlerError

pub record Ended (S : Type 0) : Type 0 where
  pub result : Result HandlerError (Unit {0})
  pub writer : Writer
  pub state : S

abbrev pub ends : {S : Type 0} → Result HandlerError (Unit {0}) → Writer → S → Option (Ended S)
ends a w s = some (record { result = a; writer = w; state = s })

-- The terminal frame of a request.
unfoldable pub final : Result Bytes InferenceResponse → ServerMessage
final (ok inf) = ServerMessage.inference_complete inf
final (err e) = ServerMessage.inference_error e

unfoldable pub mismatch_text : ℕ → Bytes
mismatch_text v =
    codes "protocol mismatch: client="
    ++ (decimal v ++ (codes " server=" ++ decimal protocol_version))

-- Writes frame after frame; the first failure ends it, and what was written stays written.
unfoldable pub write_each :
    Bincode ServerMessage → Writer → List ServerMessage → Option IoError × Writer
write_each b w [] = (none, w)
write_each b w (m ∷ ms) = elim (write_frame_async b w m) [
  | err e ↦ (some e, w)
  | ok w' ↦ write_each b w' ms
]

module _ {S : Type 0} (slot : SlotHandle S) (schedule : InferenceRequest → S → List Action) where
  stream_reply : List Action → Run S → List ServerMessage × S
  stream_reply sched r = (forwarded sched r.events (final r.result), r.state)

  -- The frames that answer one request, and the slot's state after it.
  unfoldable pub reply : InferenceRequest → S → List ServerMessage × S
  unfolding stream_reply
  reply req s =
      if req.stream || req.progress
      then stream_reply (schedule req s) (slot.run_stream req s)
      else let (a, s') = slot.run req s in (final a ∷ [], s')

  module _ (from_client : Bincode ClientMessage) (to_client : Bincode ServerMessage) where
    sent : (Writer → Option (Ended S)) → S → Option IoError × Writer → Option (Ended S)
    sent go s (some e, w) = ends (err (write_failed e)) w s
    sent go s (none, w) = go w

    -- One message of the request loop; `again` is the next round.
    unfoldable pub serve_message :
        (Reader → Writer → S → Option (Ended S))
        → Reader
        → Writer
        → S
        → ClientMessage
        → Option (Ended S)
    unfolding sent
    serve_message again r w s (ClientMessage.hello v) = ends (err duplicate_hello) w s
    serve_message again r w s (ClientMessage.inference req) =
        let (frames, s') = reply req s in
        sent (λ w'. again r w' s') s' (write_each to_client w frames)
    serve_message again r w s ClientMessage.cancel = again r w s
    serve_message again r w s ClientMessage.shutdown =
        sent (λ w'. ends (ok tt) w' s) s (write_each to_client w (ServerMessage.goodbye ∷ []))

    unfoldable pub on_frame :
        (Reader → Writer → S → Option (Ended S))
        → Writer
        → S
        → Result IoError (Option ClientMessage × Reader)
        → Option (Ended S)
    unfolding serve_message
    on_frame again w s (err e) = ends (err (read_failed e)) w s
    on_frame again w s (ok (none, r)) = ends (ok tt) w s
    on_frame again w s (ok (some msg, r)) = serve_message again r w s msg

    unfoldable pub serve_requests : ℕ → Reader → Writer → S → Option (Ended S)
    unfolding on_frame
    serve_requests zero r w s = none
    serve_requests (suc fuel) r w s =
        on_frame (serve_requests fuel) w s (read_frame_async from_client r)

    welcome : Writer → Result IoError Writer
    welcome w =
        write_frame_async to_client w
          (ServerMessage.hello protocol_version slot.model_name slot.gpu_memory_mb)

    start_requests : Reader → Writer → S → Result IoError Writer → Option (Ended S)
    start_requests r w s (err e) = ends (err (write_hello e)) w s
    start_requests r w s (ok w') = serve_requests (suc (length r.bytes)) r w' s

    -- The answer to the first frame. A failure to write the mismatch notice is ignored.
    unfoldable pub handshake :
        Writer → S → Result IoError (Option ClientMessage × Reader) → Option (Ended S)
    unfolding start_requests welcome
    handshake w s (err e) = ends (err (read_hello e)) w s
    handshake w s (ok (none, r)) = ends (err eof_before_hello) w s
    handshake w s (ok (some (ClientMessage.hello v), r)) =
        if v == protocol_version
        then start_requests r w s (welcome w)
        else ends (err (protocol_mismatch v))
            (write_each to_client w (ServerMessage.inference_error (mismatch_text v) ∷ [])).1 s
    handshake w s (ok (some other, r)) = ends (err (expected_hello other)) w s

    unfoldable pub handle_client : Reader → Writer → S → Option (Ended S)
    unfolding handshake
    handle_client r w s = handshake w s (read_frame_async from_client r)
