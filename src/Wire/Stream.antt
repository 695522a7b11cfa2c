-- ===== src/Wire/Stream.antt =====
-- model_api_client/src/framed.rs: `read_frame_async` over the bytes of a connection.
use chitin_model_api.Prelude.{ℕ, ◌≡◌, ◌∷◌, Option, none, some, arith}
use chitin_model_api.Prelude.Lists.{drop}
use chitin_model_api.Prelude.Result.{Result, ok, err}
use chitin_model_api.Prelude.Text.{Bytes}
use chitin_model_api.Wire.{
  Bincode, IoError, read_error, Ending, Reader, ended, read_exact, header_len, try_decode,
  read_frame_async,
}

module _ {M : Type 0} (b : Bincode M) where
  -- What a read gives, from what the buffer decoder says of all the bytes that will arrive.
  abbrev pub from_buffer :
      Bytes → Ending → Result IoError (Option (M × ℕ)) → Result IoError (Option M × Reader)
  from_buffer buf end (ok (some (m, n))) = ok (some m, record { bytes = drop n buf; ending = end })
  from_buffer buf end (ok none) = err (read_error (ended end))
  from_buffer buf end (err e) = err e

  -- The streaming reader and the buffer decoder agree on every stream that has a first byte.
  pub read_frame_async-try_decode :
      (h : ℕ) (buf : Bytes) (end : Ending)
      → read_frame_async b (record { bytes = h ∷ buf; ending = end })
        ≡ from_buffer (h ∷ buf) end (try_decode b (h ∷ buf))
  unfolding read_frame_async try_decode read_exact header_len
  read_frame_async-try_decode h (h1 ∷ h2 ∷ h3 ∷ rest) end = ground arith
  read_frame_async-try_decode h _ end = ground arith
