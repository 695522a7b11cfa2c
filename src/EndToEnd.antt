-- ===== src/EndToEnd.antt =====
-- Client and server together: model_api_client/src/sync.rs against model_api_server/src/lib.rs.
pub mod Answers
use chitin_model_api.Client.Requests.Delivery.{
  frame_of, Terminal, complete, failed, await_stream-frames,
}
use chitin_model_api.Client.Requests.{inference_stream, await_stream, send}
use chitin_model_api.Client.Sync.{
  StreamEvent, ClientError, server, Codec, Connection, SyncClient, write_frame,
}
use chitin_model_api.Prelude.Lists.{length, length-append}
use chitin_model_api.Prelude.Result.{Result, ok, err}
use chitin_model_api.Prelude.Text.{Bytes}
use chitin_model_api.Prelude.{
  suc, ◌≤◌, ◌≡◌, refl, ap, ◌∙◌, true, false, List, [], ◌∷◌, ◌++◌, some, arith, map,
}
use chitin_model_api.Proto.{ClientMessage, ServerMessage, InferenceRequest, InferenceResponse}
use chitin_model_api.Server.Handler.{final, reply}
use chitin_model_api.Server.Slot.{SlotEvent, SlotHandle}
use chitin_model_api.Server.Streaming
use chitin_model_api.Server.Streaming.Settle.{forwarded-Sublist}
use chitin_model_api.Server.Streaming.{Action, forwarded, channel_capacity}
use chitin_model_api.Wire.Decode.{encode_shape, length-framed}
use chitin_model_api.Wire.Frames.{frames, frames-cons}
use chitin_model_api.Wire.{Bincode, encode, write_all, Ending, Reader}
use mathlib.Core.List.{Sublist}

-- The client's name for an event of the slot.
abbrev pub event_of : SlotEvent → StreamEvent
event_of (SlotEvent.chunk c) = StreamEvent.chunk c
event_of (SlotEvent.progress p) = StreamEvent.progress p

-- The client's name for a slot's result.
abbrev pub result_of : Result Bytes InferenceResponse → Result ClientError InferenceResponse
result_of (ok resp) = ok resp
result_of (err why) = err (server why)

final-Terminal : (a : Result Bytes InferenceResponse) → Terminal (final a) (result_of a)
unfolding final
final-Terminal (ok resp) = complete resp
final-Terminal (err why) = failed why

frame_of-event_of :
    (es : List SlotEvent) → map frame_of (map event_of es) ≡ map Streaming.frame_of es
unfolding frame_of Streaming.frame_of
frame_of-event_of [] = refl
frame_of-event_of (SlotEvent.chunk c ∷ es) = ap (◌∷◌ (ServerMessage.chunk c)) (frame_of-event_of es)
frame_of-event_of (SlotEvent.progress p ∷ es) =
    ap (◌∷◌ (ServerMessage.progress p)) (frame_of-event_of es)

length-map : {A B : Type 0} (f : A → B) (xs : List A) → length (map f xs) ≡ length xs
length-map f [] = refl
length-map f (x ∷ xs) = ap suc (length-map f xs)

frames-length :
    {M : Type 0} (b : Bincode M) (ms : List M) (out : Bytes)
    → frames b ms ≡ ok out
    → length ms ≤ length out
frames-length b [] out h = omega arith
frames-length b (m ∷ ms) out h =
    let (f, t, e, k, s) = frames-cons b m ms out h in
    let (p, _, _, shape) = encode_shape b m f e in
    omega (
      arith,
      frames-length b ms t k,
      ap length s,
      length-append f t,
      ap length shape,
      length-framed (length p) p,
    )

abbrev streaming : InferenceRequest → InferenceRequest
streaming req = record req { stream = true; progress = true }

module _ {S : Type 0} (slot : SlotHandle S) (schedule : InferenceRequest → S → List Action)
    (c : Codec) where
  -- A client that is not poisoned and whose peer takes its bytes; the frame fits.
  pub record CanSend (k : SyncClient) (msg : ClientMessage) : Type 0 where
    pub not_poisoned : k.poisoned ≡ false
    pub not_broken : k.stream.writer.broken ≡ false
    pub frame : Bytes
    pub encodes : encode c.to_server msg ≡ ok frame

  write_frame_can :
      (k : SyncClient) (msg : ClientMessage) (can : CanSend k msg)
      → write_frame c k.stream msg
        ≡ ok (record (k.stream) {
          writer = record (k.stream.writer) { sent = k.stream.writer.sent ++ can.frame };
        })
  unfolding write_frame write_all
  write_frame_can k msg can = rw (can.encodes, can.not_broken)

  pub at_reader :
      (r : Reader) (bytes : Bytes)
      → r.bytes ≡ bytes
      → await_stream c (suc (length r.bytes)) [] r
        ≡ await_stream c (suc (length bytes)) [] (record { bytes = bytes; ending = r.ending })
  at_reader r bytes e =
      ap
        (λ (b : Bytes).
          await_stream c (suc (length b)) [] (record { bytes = b; ending = r.ending }))
        e

  -- The loop of `inference_stream` on the answer to a request.
  pub await_reply :
      (fw : List SlotEvent) (a : Result Bytes InferenceResponse) (out rest : Bytes) (end : Ending)
      → frames c.to_client (map Streaming.frame_of fw ++ (final a ∷ [])) ≡ ok out
      → await_stream c
          (suc (length (out ++ rest)))
          []
          (record { bytes = out ++ rest; ending = end })
        ≡ some (
          record { result = result_of a; reader = record { bytes = rest; ending = end } },
          map event_of fw,
        )
  await_reply fw a out rest end h =
      await_stream-frames c end (map event_of fw) [] (final a) (result_of a) out rest
        (suc (length (out ++ rest))) (final-Terminal a) (rw frame_of-event_of h)
        (omega (
          arith,
          frames-length c.to_client (map Streaming.frame_of fw ++ (final a ∷ [])) out h,
          length-append (map Streaming.frame_of fw) (final a ∷ []),
          length-map Streaming.frame_of fw,
          length-map event_of fw,
          length-append out rest,
        ))

  abbrev pub after_send : (k : SyncClient) (msg : ClientMessage) → CanSend k msg → Connection
  after_send k msg can = record (k.stream) {
    writer = record (k.stream.writer) { sent = k.stream.writer.sent ++ can.frame };
  }

  pub send_can :
      (k : SyncClient) (msg : ClientMessage) (can : CanSend k msg)
      → send c k msg ≡ ok (after_send k msg can)
  unfolding send
  send_can k msg can = ground (arith, write_frame_can k msg can)

  inference_stream_can :
      (k : SyncClient) (req : InferenceRequest)
      → CanSend k (ClientMessage.inference (streaming req))
      → inference_stream c k req
        ≡ await_stream c (suc (length k.stream.reader.bytes)) [] k.stream.reader
  inference_stream_can k req can =
      let e = send_can k (ClientMessage.inference (streaming req)) can in
      unfold inference_stream in rw (e, inference_stream)

  -- `inference_stream` against the server: on the bytes that the handler writes for the request,
  -- with anything behind them, it returns the slot's result; the callback sees events that the slot
  -- pushed, each at most once and in their order, and all of them if there are at most 64; and the
  -- stream is left at the bytes behind the answer.
  pub inference_stream-reply :
      (k : SyncClient) (req : InferenceRequest) (s : S) (out rest : Bytes)
      → CanSend k (ClientMessage.inference (streaming req))
      → frames c.to_client (reply slot schedule (streaming req) s).0 ≡ ok out
      → k.stream.reader.bytes ≡ out ++ rest
      → (fw : List SlotEvent) × (inference_stream c k req
          ≡ some (
            record {
              result = result_of (slot.run_stream (streaming req) s).result;
              reader = record { bytes = rest; ending = k.stream.reader.ending };
            },
            map event_of fw,
          ))
        × Sublist fw (slot.run_stream (streaming req) s).events
        × (length (slot.run_stream (streaming req) s).events ≤ channel_capacity
            → fw ≡ (slot.run_stream (streaming req) s).events)
  unfolding reply
  inference_stream-reply k req s out rest can h e =
      let r = slot.run_stream (streaming req) s in
      let (fw, shape, sub, all) =
        forwarded-Sublist (final r.result) (schedule (streaming req) s) r.events in
      (
        fw,
        inference_stream_can k req can
            ∙ at_reader k.stream.reader (out ++ rest) e
            ∙ await_reply fw r.result out rest k.stream.reader.ending (rw (← shape) h),
        sub,
        all,
      )
