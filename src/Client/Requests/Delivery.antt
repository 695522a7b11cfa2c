-- ===== src/Client/Requests/Delivery.antt =====
-- model_api_client/src/sync.rs: the loops on the frames that a server writes.
use chitin_model_api.Client.Requests.{answer_stream, await_response, await_stream}
use chitin_model_api.Client.Requests.Loops.{read_frame-async, await_response-await_stream, forget}
use chitin_model_api.Client.Sync.{StreamEvent, ClientError, server, Codec, read_frame}
use chitin_model_api.Prelude.Lists.{length}
use chitin_model_api.Prelude.Result.{Result, ok, err}
use chitin_model_api.Prelude.Text.{Bytes}
use chitin_model_api.Prelude.{
  ℕ, zero, suc, ◌<◌, ◌≡◌, sym, ap, ◌∙◌, List, [], ◌∷◌, ◌++◌, some, arith, append_assoc, append-nil,
  map,
}
use chitin_model_api.Proto.{ServerMessage, InferenceResponse}
use chitin_model_api.Wire.Frames.{frames, frames_nil, frames-cons}
use chitin_model_api.Wire.{encode, Reader, Ending}
use chitin_model_api.Wire.Sequence.{read_frame_async-encode}

-- The frame that carries an event.
unfoldable pub frame_of : StreamEvent → ServerMessage
frame_of (StreamEvent.chunk d) = ServerMessage.chunk d
frame_of (StreamEvent.progress p) = ServerMessage.progress p

pub data Terminal : ServerMessage → Result ClientError InferenceResponse → Type 0 where
  complete : (resp : InferenceResponse) → Terminal (ServerMessage.inference_complete resp) (ok resp)
  failed : (why : Bytes) → Terminal (ServerMessage.inference_error why) (err (server why))

module _ (c : Codec) (end : Ending) where
  abbrev at_bytes : Bytes → Reader
  at_bytes bytes = record { bytes = bytes; ending = end }

  pub read_frame-frames :
      (m : ServerMessage) (f rest : Bytes)
      → encode c.to_client m ≡ ok f
      → read_frame c (at_bytes (f ++ rest)) ≡ ok (some m, at_bytes rest)
  read_frame-frames m f rest h =
      read_frame-async c (at_bytes (f ++ rest)) (some m, at_bytes rest)
        (read_frame_async-encode c.to_client m f rest end h)

  await_stream-event :
      (ev : StreamEvent) (fuel : ℕ) (seen : List StreamEvent) (r r' : Reader)
      → read_frame c r ≡ ok (some (frame_of ev), r')
      → await_stream c (suc fuel) seen r ≡ await_stream c fuel (seen ++ (ev ∷ [])) r'
  unfolding await_stream answer_stream frame_of
  await_stream-event (StreamEvent.chunk d) fuel seen r r' h = rw h
  await_stream-event (StreamEvent.progress p) fuel seen r r' h = rw h

  await_stream-Terminal :
      {m : ServerMessage} {a : Result ClientError InferenceResponse} (fuel : ℕ)
      (seen : List StreamEvent) (r r' : Reader)
      → Terminal m a
      → read_frame c r ≡ ok (some m, r')
      → await_stream c (suc fuel) seen r ≡ some (record { result = a; reader = r' }, seen)
  unfolding await_stream answer_stream
  await_stream-Terminal fuel seen r r' (complete resp) h = rw h
  await_stream-Terminal fuel seen r r' (failed why) h = rw h

  -- Frames of events and then a terminal one: every event reaches the callback, in order, the
  -- result is the terminal frame's, and the next request starts at the bytes behind it.
  pub await_stream-frames :
      (events seen : List StreamEvent) (m : ServerMessage)
      (a : Result ClientError InferenceResponse) (out rest : Bytes) (fuel : ℕ)
      → Terminal m a
      → frames c.to_client (map frame_of events ++ (m ∷ [])) ≡ ok out
      → length events < fuel
      → await_stream c fuel seen (at_bytes (out ++ rest))
        ≡ some (record { result = a; reader = at_bytes rest }, seen ++ events)
  await_stream-frames events seen m a out rest zero t h l = elim l [ ]
  await_stream-frames [] seen m a out rest (suc fuel) t h l =
      let (f, t', e, e', s) = frames-cons c.to_client m [] out h in
      rw (s, frames_nil c.to_client t' e', append_assoc, append-nil)
        (await_stream-Terminal fuel seen _ (at_bytes rest) t (read_frame-frames m f rest e))
  await_stream-frames (ev ∷ events) seen m a out rest (suc fuel) t h l =
      let (f, t', e, e', s) =
        frames-cons c.to_client (frame_of ev) (map frame_of events ++ (m ∷ [])) out h in
      let read = read_frame-frames (frame_of ev) f (t' ++ rest) e in
      rw (s, append_assoc)
        (await_stream-event ev fuel seen _ _ read
          ∙ await_stream-frames events (seen ++ (ev ∷ [])) m a t' rest fuel t e' (omega arith)
          ∙ rw append_assoc)

  -- The same for `inference`, which drops the events.
  pub await_response-frames :
      (events : List StreamEvent) (m : ServerMessage) (a : Result ClientError InferenceResponse)
      (out rest : Bytes) (fuel : ℕ)
      → Terminal m a
      → frames c.to_client (map frame_of events ++ (m ∷ [])) ≡ ok out
      → length events < fuel
      → await_response c fuel (at_bytes (out ++ rest))
        ≡ some (record { result = a; reader = at_bytes rest })
  await_response-frames events m a out rest fuel t h l =
      sym (await_response-await_stream c fuel [] (at_bytes (out ++ rest)))
      ∙ ap forget (await_stream-frames events [] m a out rest fuel t h l)
