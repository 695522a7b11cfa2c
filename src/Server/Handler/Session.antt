-- ===== src/Server/Handler/Session.antt =====
-- model_api_server/src/lib.rs: the handler over bytes, and the protocol over messages.
use chitin_model_api.Prelude.Lists.{length, length-append}
use chitin_model_api.Prelude.Result.{Result, ok, err}
use chitin_model_api.Prelude.Text.{Bytes}
use chitin_model_api.Prelude.{
  ℕ, zero, suc, ◌<◌, ◌≡◌, refl, ap, ◌∙◌, false, List, [], ◌∷◌, ◌++◌, Option, none, some, arith,
  append_assoc, append-nil,
}
use chitin_model_api.Proto.{ClientMessage, ServerMessage, InferenceRequest, protocol_version}
use chitin_model_api.Server.Framed
use chitin_model_api.Server.Framed.Mirror.{write_frame_async-eq, read_frame_async-eq}
use chitin_model_api.Server.Handler.{
  HandlerError, duplicate_hello, Ended, ends, write_each, reply, serve_message, serve_requests,
  handle_client,
}
use chitin_model_api.Server.Slot.{SlotHandle}
use chitin_model_api.Server.Streaming.{Action}
use chitin_model_api.Wire.Decode.{encode_shape, length-framed}
use chitin_model_api.Wire.Frames.{frames, frames_nil, frames-cons, frames-append}
use chitin_model_api.Wire.Sequence.{read_frame_async-encode}
use chitin_model_api.Wire.{Bincode, Reader, Writer, eof, write_all, encode, write_frame_async}

-- What a connection sends after the handshake, how it ends, and the slot's state then.
pub record Answers (S : Type 0) : Type 0 where
  pub messages : List ServerMessage
  pub result : Result HandlerError (Unit {0})
  pub state : S

module _ {S : Type 0} (slot : SlotHandle S) (schedule : InferenceRequest → S → List Action) where
  behind : List ServerMessage → Answers S → Answers S
  behind ms a = record a { messages = ms ++ a.messages }

  -- The protocol: each request is answered in turn by its frames, `Cancel` by none; `Shutdown` ends
  -- the connection with `Goodbye`, and a second `Hello` with an error.
  unfoldable pub answers : List ClientMessage → S → Answers S
  unfolding behind
  answers [] s = record { messages = []; result = ok tt; state = s }
  answers (ClientMessage.hello v ∷ ms) s = record {
    messages = [];
    result = err duplicate_hello;
    state = s;
  }
  answers (ClientMessage.inference req ∷ ms) s =
      let (frames, s') = reply slot schedule req s in behind frames (answers ms s')
  answers (ClientMessage.cancel ∷ ms) s = answers ms s
  answers (ClientMessage.shutdown ∷ ms) s = record {
    messages = ServerMessage.goodbye ∷ [];
    result = ok tt;
    state = s;
  }

  module _ (from_client : Bincode ClientMessage) (to_client : Bincode ServerMessage) where
    abbrev full : Writer → Bytes → Writer
    full w out = record w { sent = w.sent ++ out }

    full_nil : (w : Writer) (out : Bytes) → out ≡ [] → full w out ≡ w
    full_nil w out e = rw (e, append-nil)

    full-full : (w : Writer) (o p out : Bytes) → out ≡ o ++ p → full (full w o) p ≡ full w out
    full-full w o p out e = rw (e, append_assoc)

    write_one :
        (w : Writer) (m : ServerMessage) (f : Bytes)
        → w.broken ≡ false
        → encode to_client m ≡ ok f
        → Framed.write_frame_async to_client w m ≡ ok (full w f)
    write_one w m f h e =
        write_frame_async-eq to_client w m ∙ (unfold write_frame_async write_all in rw (e, h))

    -- On a peer that takes every byte, frames that encode are all written.
    write_each-frames :
        (ms : List ServerMessage) (w : Writer) (out : Bytes)
        → w.broken ≡ false
        → frames to_client ms ≡ ok out
        → write_each to_client w ms ≡ (none, full w out)
    unfolding write_each
    write_each-frames [] w out h k = rw (full_nil w out (frames_nil to_client out k))
    write_each-frames (m ∷ ms) w out h k =
        let (f, t, e, k', s) = frames-cons to_client m ms out k in
        rw (write_one w m f h e, write_each)
          (write_each-frames ms (full w f) t h k' ∙ rw (full-full w f t out s))

    abbrev at_end : Bytes → Reader
    at_end bytes = record { bytes = bytes; ending = eof }

    abbrev requests : ℕ → Reader → Writer → S → Option (Ended S)
    requests = serve_requests slot schedule from_client to_client

    abbrev one : ℕ → Reader → Writer → S → ClientMessage → Option (Ended S)
    one fuel = serve_message slot schedule from_client to_client (requests fuel)

    read_one :
        (m : ClientMessage) (f t : Bytes)
        → encode from_client m ≡ ok f
        → Framed.read_frame_async from_client (at_end (f ++ t)) ≡ ok (some m, at_end t)
    read_one m f t e =
        read_frame_async-eq from_client (at_end (f ++ t))
        ∙ read_frame_async-encode from_client m f t eof e

    serve_one :
        (m : ClientMessage) (f t : Bytes) (fuel : ℕ) (w : Writer) (s : S)
        → encode from_client m ≡ ok f
        → requests (suc fuel) (at_end (f ++ t)) w s ≡ one fuel (at_end t) w s m
    unfolding serve_requests
    serve_one m f t fuel w s e = rw (read_one m f t e)

    serve_none :
        (fuel : ℕ) (w : Writer) (s : S) → requests (suc fuel) (at_end []) w s ≡ ends (ok tt) w s
    unfolding serve_requests Framed.read_frame_async
    serve_none fuel w s = refl

    abbrev Serves : List ClientMessage → ℕ → Bytes → Writer → S → Bytes → Type 0
    Serves msgs fuel bytes w s out =
        requests fuel (at_end bytes) w s
        ≡ ends (answers msgs s).result (full w out) (answers msgs s).state

    serve_inference :
        (req : InferenceRequest) (ms : List ClientMessage) (t out : Bytes) (fuel : ℕ) (w : Writer)
        (s : S)
        → w.broken ≡ false
        → frames to_client (answers (ClientMessage.inference req ∷ ms) s).messages ≡ ok out
        → ((w' : Writer) (s' : S) (out' : Bytes)
            → w'.broken ≡ false
            → frames to_client (answers ms s').messages ≡ ok out'
            → Serves ms fuel t w' s' out')
        → one fuel (at_end t) w s (ClientMessage.inference req)
          ≡ ends
              (answers (ClientMessage.inference req ∷ ms) s).result
              (full w out)
              (answers (ClientMessage.inference req ∷ ms) s).state
    unfolding serve_message answers
    serve_inference req ms t out fuel w s hw ho ih =
        let (fs, s') = reply slot schedule req s in
        let (o, p, ko, kp, e) = frames-append to_client fs (answers ms s').messages out ho in
        rw (write_each-frames fs w o hw ko) (ih (full w o) s' p hw kp ∙ rw (full-full w o p out e))

    abbrev Next : List ClientMessage → ℕ → Bytes → Type 0
    Next ms fuel t =
        (w' : Writer) (s' : S) (out' : Bytes)
        → w'.broken ≡ false
        → frames to_client (answers ms s').messages ≡ ok out'
        → Serves ms fuel t w' s' out'

    serve_message-answers :
        (m : ClientMessage) (ms : List ClientMessage) (t out : Bytes) (fuel : ℕ) (w : Writer)
        (s : S)
        → w.broken ≡ false
        → frames to_client (answers (m ∷ ms) s).messages ≡ ok out
        → Next ms fuel t
        → one fuel (at_end t) w s m
          ≡ ends (answers (m ∷ ms) s).result (full w out) (answers (m ∷ ms) s).state
    serve_message-answers (ClientMessage.hello v) ms t out fuel w s hw ho ih =
        unfold serve_message answers in rw (full_nil w out (frames_nil to_client out ho))
    serve_message-answers (ClientMessage.inference req) ms t out fuel w s hw ho ih =
        serve_inference req ms t out fuel w s hw ho ih
    serve_message-answers ClientMessage.cancel ms t out fuel w s hw ho ih =
        unfold serve_message answers in ih w s out hw ho
    serve_message-answers ClientMessage.shutdown ms t out fuel w s hw ho ih =
        unfold serve_message answers in
        rw (write_each-frames (ServerMessage.goodbye ∷ []) w out hw ho)

    shorter :
        (m : ClientMessage) (f t bytes : Bytes)
        → encode from_client m ≡ ok f
        → bytes ≡ f ++ t
        → length t < length bytes
    shorter m f t bytes e s =
        let (p, _, _, shape) = encode_shape from_client m f e in
        omega (arith, ap length s, length-append f t, ap length shape, length-framed (length p) p)

    serve-answers :
        (msgs : List ClientMessage) (bytes out : Bytes) (fuel : ℕ) (w : Writer) (s : S)
        → frames from_client msgs ≡ ok bytes
        → frames to_client (answers msgs s).messages ≡ ok out
        → w.broken ≡ false
        → length bytes < fuel
        → Serves msgs fuel bytes w s out
    serve-answers msgs bytes out zero w s hb ho hw hf = elim hf [ ]
    serve-answers [] bytes out (suc fuel) w s hb ho hw hf =
        rw (frames_nil from_client bytes hb, serve_none fuel w s)
          (unfold answers in rw (full_nil w out (frames_nil to_client out ho)))
    serve-answers (m ∷ ms) bytes out (suc fuel) w s hb ho hw hf =
        let (f, t, e, k, split) = frames-cons from_client m ms bytes hb in
        rw split (
          serve_one m f t fuel w s e
          ∙ serve_message-answers m ms t out fuel w s hw ho (λ w' s' out' h' ho'.
            serve-answers ms t out' fuel w' s' k ho' h'
              (omega (arith, shorter m f t bytes e split))))

    abbrev greeting : ServerMessage
    greeting = ServerMessage.hello protocol_version slot.model_name slot.gpu_memory_mb

    -- A client that says `Hello` with the right version, sends any messages and closes: the
    -- handler sends its own `Hello`, then for each request its frames, and ends as the protocol
    -- says. It needs that the answers fit into frames and that the peer takes every byte.
    pub handle_client-answers :
        (msgs : List ClientMessage) (bytes out : Bytes) (w : Writer) (s : S)
        → frames from_client (ClientMessage.hello protocol_version ∷ msgs) ≡ ok bytes
        → frames to_client (greeting ∷ (answers msgs s).messages) ≡ ok out
        → w.broken ≡ false
        → handle_client slot schedule from_client to_client
            (record { bytes = bytes; ending = eof })
            w
            s
          ≡ some (record {
            result = (answers msgs s).result;
            writer = record w { sent = w.sent ++ out };
            state = (answers msgs s).state;
          })
    unfolding handle_client
    handle_client-answers msgs bytes out w s hb ho hw =
        let (f, t, e, k, split) =
          frames-cons from_client (ClientMessage.hello protocol_version) msgs bytes hb in
        let (g, o, eg, ko, split') =
          frames-cons to_client greeting (answers msgs s).messages out ho in
        rw
          (
            split,
            read_one (ClientMessage.hello protocol_version) f t e,
            write_one w greeting g hw eg,
          )
          ((serve-answers msgs t o (suc (length t)) (full w g) s k ko hw (omega arith)
            ∙ rw (full-full w g o out split')))
