-- ===== src/Server/Framed.antt =====
-- model_api_server/src/framed.rs: the server's own copy of the frame codec, as it is written there.
-- The reader, the writer and bincode are those of module Wire.
pub mod Mirror
use chitin_model_api.Prelude.{ℕ, ◌+◌, ◌%◌, ◌^◌, List, [], ◌∷◌, ◌++◌, Option, none, some}
use chitin_model_api.Prelude.Lists.{length, take}
use chitin_model_api.Prelude.Result.{Result, ok, err, ◌>>=◌}
use chitin_model_api.Prelude.Tests.{ltb, if◌then◌else◌}
use chitin_model_api.Prelude.Text.{Bytes, u32_to_le_bytes, u32_from_le_bytes}
use chitin_model_api.Wire.{
  Bincode, IoError, bincode_encode, bincode_decode, oversized, read_error, Ending, eof, failing,
  Reader, Writer, read_exact, header_len, write_all,
}

-- `MAX_FRAME_BYTES`.
abbrev pub max_frame_bytes : ℕ
max_frame_bytes = 67108864

module _ {M : Type 0} (b : Bincode M) where
  frame_of : Bytes → Result IoError Bytes
  frame_of payload =
      if ltb max_frame_bytes (length payload)
      then err (oversized (length payload))
      else ok (u32_to_le_bytes (length payload % 2 ^ 32) ++ payload)

  unfoldable pub encode : M → Result IoError Bytes
  unfolding frame_of
  encode msg = elim (b.serialize msg) [ none ↦ err bincode_encode | some p ↦ frame_of p ]

  unfoldable pub write_frame_async : Writer → M → Result IoError Writer
  write_frame_async w msg = do frame ← encode msg; write_all frame w

  decode_payload : {A : Type 0} → Bytes → (M → A) → Result IoError A
  decode_payload payload wrap = elim (b.deserialize payload) [
    | none ↦ err bincode_decode
    | some m ↦ ok (wrap m)
  ]

  unfoldable pub try_decode : Bytes → Result IoError (Option (M × ℕ))
  unfolding decode_payload
  try_decode (h0 ∷ h1 ∷ h2 ∷ h3 ∷ rest) =
      let len = u32_from_le_bytes h0 h1 h2 h3 in
      if ltb max_frame_bytes len
      then err (oversized len)
      else if ltb (4 + length rest) (4 + len)
      then ok none
      else decode_payload (take len rest) (λ m. some (m, 4 + len))
  try_decode _ = ok none

  read_body : ℕ → Reader → Result IoError (Option M × Reader)
  unfolding decode_payload
  read_body len r =
      if ltb max_frame_bytes len then err (oversized len) else elim (read_exact len r) [
        | err e ↦ err (read_error e)
        | ok (payload, r') ↦ decode_payload payload (λ m. (some m, r'))
      ]

  read_after_first : ℕ → Reader → Result IoError (Option M × Reader)
  unfolding read_body
  read_after_first h0 r = elim (read_exact 3 r) [
    | err e ↦ err (read_error e)
    | ok (tail, r') ↦ read_body (header_len h0 tail) r'
  ]

  unfoldable pub read_frame_async : Reader → Result IoError (Option M × Reader)
  unfolding read_after_first
  read_frame_async r = elim r.bytes [
    | [] ↦ elim r.ending [ eof ↦ ok (none, r) | failing e ↦ err (read_error e) ]
    | h0 ∷ rest ↦ read_after_first h0 (record r { bytes = rest })
  ]
