-- ===== src/Wire/Sequence.antt =====
-- model_api_client/src/framed.rs: the frames of a whole connection.
use chitin_model_api.Prelude.{
  ℕ, zero, suc, ◌+◌, ◌≤◌, ◌≡◌, refl, ap, ◌∙◌, List, [], ◌∷◌, ◌++◌, Option, none, some, arith,
  append_assoc, append-nil,
}
use chitin_model_api.Prelude.Lists.{length, length-drop, drop-append}
use chitin_model_api.Prelude.Result.{Result, ok, err, ◌>>=◌, bind_succeeds}
use chitin_model_api.Prelude.Text.{Bytes, u32_from_le_bytes}
use chitin_model_api.Wire.Decode.{try_decode-encode, encode_shape, length-framed}
use chitin_model_api.Wire.Stream.{read_frame_async-try_decode}
use chitin_model_api.Wire.{
  Bincode, read_exact, header_len, IoError, Ending, eof, Reader, Writer, write_all, encode,
  try_decode, read_frame_async, write_frame_async,
}

module _ {M : Type 0} (b : Bincode M) where
  -- Reading a frame gives the message back and leaves the bytes behind it.
  pub read_frame_async-encode :
      (m : M) (frame rest : Bytes) (end : Ending)
      → encode b m ≡ ok frame
      → read_frame_async b (record { bytes = frame ++ rest; ending = end })
        ≡ ok (some m, record { bytes = rest; ending = end })
  read_frame_async-encode m frame rest end h = go frame refl
    where
      decoded : try_decode b (frame ++ rest) ≡ ok (some (m, length frame))
      decoded = try_decode-encode b m frame rest h

      go :
          (f : Bytes)
          → f ≡ frame
          → read_frame_async b (record { bytes = f ++ rest; ending = end })
            ≡ ok (some m, record { bytes = rest; ending = end })
      go [] e =
          let (p, s, l, shape) = encode_shape b m frame h in
          absurd (omega (arith, ap length e, ap length shape, length-framed (length p) p))
      go (x ∷ f) e =
          read_frame_async-try_decode b x (f ++ rest) end
          ∙ rw (ap (λ (t : Bytes). t ++ rest) e, decoded, drop-append frame rest)

  shrinks :
      (bytes : Bytes) (end : Ending) (r' : Reader) (m : M)
      → read_frame_async b (record { bytes = bytes; ending = end }) ≡ ok (some m, r')
      → (length r'.bytes + 4 ≤ length bytes) × (r'.ending ≡ end)
  unfolding read_frame_async read_exact header_len
  shrinks (h0 ∷ h1 ∷ h2 ∷ h3 ∷ rest) end r' m h =
      ground (arith, length-drop (u32_from_le_bytes h0 h1 h2 h3) rest)
  shrinks [] end r' m h = ground arith
  shrinks (h0 ∷ _) end r' m h = ground arith

  -- A read that returns a message takes at least its header off the stream.
  pub read_frame_async_shrinks :
      (r r' : Reader) (m : M)
      → read_frame_async b r ≡ ok (some m, r')
      → (length r'.bytes + 4 ≤ length r.bytes) × (r'.ending ≡ r.ending)
  read_frame_async_shrinks r r' m h = shrinks r.bytes r.ending r' m h

  -- `write_frame_async` once for each message.
  unfoldable pub write_frames : Writer → List M → Result IoError Writer
  write_frames w [] = ok w
  write_frames w (m ∷ ms) = do w' ← write_frame_async b w m; write_frames w' ms

  -- `read_frame_async` until the clean end of the stream, at most `rounds` times.
  unfoldable pub read_frames : ℕ → Reader → Result IoError (Option (List M))
  read_frames zero r = ok none
  read_frames (suc rounds) r = elim (read_frame_async b r) [
    | err e ↦ err e
    | ok (none, r') ↦ ok (some [])
    | ok (some m, r') ↦ elim (read_frames rounds r') [
      | err e ↦ err e
      | ok none ↦ ok none
      | ok (some ms) ↦ ok (some (m ∷ ms))
    ]
  ]

  -- A successful write appends one frame.
  pub write_frame_async_shape :
      (w w' : Writer) (m : M)
      → write_frame_async b w m ≡ ok w'
      → (frame : Bytes) × (encode b m ≡ ok frame)
        × (w'.sent ≡ w.sent ++ frame)
        × (w'.broken ≡ w.broken)
  unfolding write_frame_async write_all
  write_frame_async_shape w w' m h =
      let (frame, k, e) = bind_succeeds (λ f. write_all f w) (encode b m) h in
      (frame, e, ground arith, ground arith)

  read_frames-suc :
      (n : ℕ) (r r' : Reader) (m : M) (ms : List M)
      → read_frame_async b r ≡ ok (some m, r')
      → read_frames n r' ≡ ok (some ms)
      → read_frames (suc n) r ≡ ok (some (m ∷ ms))
  unfolding read_frames
  read_frames-suc n r r' m ms e k = ground arith

  -- Whatever one side manages to write, the other reads back: the same messages, in the same
  -- order, and then the clean end of the stream.
  pub read_frames-write_frames :
      (ms : List M) (w w' : Writer)
      → write_frames w ms ≡ ok w'
      → (out : Bytes) × (w'.sent ≡ w.sent ++ out)
        × (read_frames (suc (length ms)) (record { bytes = out; ending = eof }) ≡ ok (some ms))
  unfolding write_frames read_frames
  read_frames-write_frames [] w w' h =
      ([], ground (arith, append-nil w.sent), unfold read_frame_async in refl)
  read_frames-write_frames (m ∷ ms) w w' h =
      let (w1, later, first) = bind_succeeds (λ v. write_frames v ms) (write_frame_async b w m) h in
      let (frame, e, s, _) = write_frame_async_shape w w1 m first in
      let (out, s', ih) = read_frames-write_frames ms w1 w' later in
      (
        frame ++ out,
        s' ∙ rw s (append_assoc w.sent frame out),
        read_frames-suc (suc (length ms)) _ _ m ms (read_frame_async-encode m frame out eof e) ih,
      )
