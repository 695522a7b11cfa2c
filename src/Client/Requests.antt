-- ===== src/Client/Requests.antt =====
-- model_api_client/src/sync.rs: `inference`, `inference_stream`, `cancel` and `shutdown`.
pub mod Loops
pub mod Delivery
-- Each loop reads frames until a terminal one. Its fuel is one more than the bytes that the stream
-- still delivers, and `none` means that it ran out, which module Client.Requests.Loops is about.

use chitin_model_api.Client.Sync.{
  StreamEvent, ClientError, io, mutex_poisoned, server, disconnected, Connection, SyncClient, Codec,
  write_frame, read_frame,
}
use chitin_model_api.Prelude.Lists.{length}
use chitin_model_api.Prelude.Result.{Result, ok, err}
use chitin_model_api.Prelude.Tests.{if◌then◌else◌}
use chitin_model_api.Prelude.{ℕ, zero, suc, true, List, [], ◌∷◌, ◌++◌, Option, none, some}
use chitin_model_api.Proto.{ClientMessage, ServerMessage, InferenceRequest, InferenceResponse}
use chitin_model_api.Wire.{Reader}

-- What a call returns, with the connection's reader after it.
pub record Outcome (A : Type 0) : Type 0 where
  pub result : Result ClientError A
  pub reader : Reader

abbrev pub now : {A : Type 0} → Result ClientError A → Reader → Option (Outcome A)
now a r = some (record { result = a; reader = r })

abbrev pub Frame : Type 0
Frame = Result ClientError (Option ServerMessage × Reader)

-- The loop body of `inference`, on the frame read and with the next round as `again`. After a read
-- error the outcome's reader is where the read began: what such a read has taken is not modelled.
unfoldable pub answer :
    (Reader → Option (Outcome InferenceResponse))
    → Reader
    → Frame
    → Option (Outcome InferenceResponse)
answer again r (err e) = now (err e) r
answer again r (ok (none, r')) = now (err disconnected) r'
answer again r (ok (some (ServerMessage.inference_complete resp), r')) = now (ok resp) r'
answer again r (ok (some (ServerMessage.inference_error message), r')) =
    now (err (server message)) r'
answer again r (ok (some (ServerMessage.progress _), r')) = again r'
answer again r (ok (some (ServerMessage.chunk _), r')) = again r'
answer again r (ok (some (ServerMessage.hello _ _ _), r')) = again r'
answer again r (ok (some ServerMessage.goodbye, r')) = again r'

-- What `inference_stream` returns, with the calls of the callback, in order.
abbrev pub Streamed : Type 0
Streamed = Outcome InferenceResponse × List StreamEvent

abbrev pub streamed :
    Result ClientError InferenceResponse → Reader → List StreamEvent → Option Streamed
streamed a r seen = some (record { result = a; reader = r }, seen)

-- The loop body of `inference_stream`; `seen` holds the callback's calls so far.
unfoldable pub answer_stream :
    (List StreamEvent → Reader → Option Streamed)
    → List StreamEvent
    → Reader
    → Frame
    → Option Streamed
answer_stream again seen r (err e) = streamed (err e) r seen
answer_stream again seen r (ok (none, r')) = streamed (err disconnected) r' seen
answer_stream again seen r (ok (some (ServerMessage.inference_complete resp), r')) =
    streamed (ok resp) r' seen
answer_stream again seen r (ok (some (ServerMessage.inference_error message), r')) =
    streamed (err (server message)) r' seen
answer_stream again seen r (ok (some (ServerMessage.progress p), r')) =
    again (seen ++ (StreamEvent.progress p ∷ [])) r'
answer_stream again seen r (ok (some (ServerMessage.chunk d), r')) =
    again (seen ++ (StreamEvent.chunk d ∷ [])) r'
answer_stream again seen r (ok (some (ServerMessage.hello _ _ _), r')) = again seen r'
answer_stream again seen r (ok (some ServerMessage.goodbye, r')) = again seen r'

-- The loop body of `shutdown`: until `Goodbye` or the end of the stream.
unfoldable pub leave :
    (Reader → Option (Outcome (Unit {0}))) → Reader → Frame → Option (Outcome (Unit {0}))
leave again r (err disconnected) = now (ok tt) r
leave again r (err e) = now (err e) r
leave again r (ok (none, r')) = now (ok tt) r'
leave again r (ok (some ServerMessage.goodbye, r')) = now (ok tt) r'
leave again r (ok (some _, r')) = again r'

module _ (c : Codec) where
  unfoldable pub await_response : ℕ → Reader → Option (Outcome InferenceResponse)
  await_response zero r = none
  await_response (suc fuel) r = answer (await_response fuel) r (read_frame c r)

  unfoldable pub await_stream : ℕ → List StreamEvent → Reader → Option Streamed
  await_stream zero seen r = none
  await_stream (suc fuel) seen r = answer_stream (await_stream fuel) seen r (read_frame c r)

  unfoldable pub await_goodbye : ℕ → Reader → Option (Outcome (Unit {0}))
  await_goodbye zero r = none
  await_goodbye (suc fuel) r = leave (await_goodbye fuel) r (read_frame c r)

  -- A method's frame, unless the mutex is poisoned.
  unfoldable pub send : SyncClient → ClientMessage → Result ClientError Connection
  send k msg = if k.poisoned then err (io mutex_poisoned) else write_frame c k.stream msg

  unfoldable pub enough : Connection → ℕ
  enough s = suc (length s.reader.bytes)

  -- The methods, up to the point where the response is awaited.
  unfoldable pub inference : SyncClient → InferenceRequest → Option (Outcome InferenceResponse)
  unfolding send enough
  inference k req = elim (send k (ClientMessage.inference req)) [
    | err e ↦ now (err e) k.stream.reader
    | ok s ↦ await_response (enough s) s.reader
  ]

  unfoldable pub inference_stream : SyncClient → InferenceRequest → Option Streamed
  unfolding send enough
  inference_stream k req =
      elim (send k (ClientMessage.inference (record req { stream = true; progress = true }))) [
        | err e ↦ some (record { result = err e; reader = k.stream.reader }, [])
        | ok s ↦ await_stream (enough s) [] s.reader
      ]

  unfoldable pub cancel : SyncClient → Result ClientError Connection
  unfolding send
  cancel k = send k ClientMessage.cancel

  unfoldable pub shutdown : SyncClient → Option (Outcome (Unit {0}))
  unfolding send enough
  shutdown k = elim (send k ClientMessage.shutdown) [
    | err e ↦ now (err e) k.stream.reader
    | ok s ↦ await_goodbye (enough s) s.reader
  ]
