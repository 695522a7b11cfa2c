-- ===== src/Wire.antt =====
-- model_api_client/src/framed.rs: frames of a u32 length and a bincode payload.
-- bincode is a parameter: what `serialize` and `deserialize` return, and that they are inverse.
-- A reader is the bytes that the socket still delivers and how it ends: at the peer's close, or
-- with an I/O error. `read` of one byte and `read_exact` are those of the reader traits.
pub mod Decode
pub mod Stream
pub mod Sequence
pub mod Frames
use chitin_model_api.Prelude.{
  ℕ, ◌+◌, ◌%◌, ◌^◌, ◌*◌, ◌≡◌, Bool, List, [], ◌∷◌, ◌++◌, Option, none, some,
}
use chitin_model_api.Prelude.Lists.{length, take, drop}
use chitin_model_api.Prelude.Result.{Result, ok, err, ◌>>=◌}
use chitin_model_api.Prelude.Tests.{ltb, leb, if◌then◌else◌}
use chitin_model_api.Prelude.Text.{Bytes, u32_to_le_bytes, u32_from_le_bytes}

pub record Bincode (M : Type 0) : Type 0 where
  pub serialize : M → Option Bytes
  pub deserialize : Bytes → Option M
  pub deserialize-serialize :
      (m : M) (payload : Bytes) → serialize m ≡ some payload → deserialize payload ≡ some m

pub data ReadError : Type 0 where
  unexpected_eof other_error : ReadError

pub data IoError : Type 0 where
  bincode_encode bincode_decode : IoError
  oversized : ℕ → IoError
  read_error : ReadError → IoError
  write_error : IoError

pub data Ending : Type 0 where
  eof : Ending
  failing : ReadError → Ending

-- The reading half: the bytes that are still to come, and what a read finds behind them. A peer that
-- stays open and sends nothing more has no such ending: there the source waits without a limit.
pub record Reader : Type 0 where
  pub bytes : Bytes
  pub ending : Ending

-- The writing half: what has been sent, and whether the peer still takes bytes.
pub record Writer : Type 0 where
  pub sent : Bytes
  pub broken : Bool

-- `write_all`.
unfoldable pub write_all : Bytes → Writer → Result IoError Writer
write_all frame w = if w.broken then err write_error else ok (record w { sent = w.sent ++ frame })

-- `MAX_FRAME_BYTES`.
abbrev pub max_frame_bytes : ℕ
max_frame_bytes = 67108864

abbrev pub ended : Ending → ReadError
ended eof = unexpected_eof
ended (failing e) = e

-- `read_exact` of `n` bytes.
unfoldable pub read_exact : ℕ → Reader → Result ReadError (Bytes × Reader)
read_exact n r =
    if leb n (length r.bytes)
    then ok (take n r.bytes, record r { bytes = drop n r.bytes })
    else err (ended r.ending)

-- The length that four header bytes give; the first is read on its own.
unfoldable pub header_len : ℕ → Bytes → ℕ
header_len a (b ∷ c ∷ d ∷ []) = u32_from_le_bytes a b c d
header_len a _ = 0

module _ {M : Type 0} (b : Bincode M) where
  frame_of : Bytes → Result IoError Bytes
  frame_of payload =
      if ltb max_frame_bytes (length payload)
      then err (oversized (length payload))
      else ok (u32_to_le_bytes (length payload % 2 ^ 32) ++ payload)

  unfoldable pub encode : M → Result IoError Bytes
  unfolding frame_of
  encode msg = elim (b.serialize msg) [ none ↦ err bincode_encode | some p ↦ frame_of p ]

  unfoldable pub write_frame_async : Writer → M → Result IoError Writer
  write_frame_async w msg = do frame ← encode msg; write_all frame w

  unfoldable pub decode_payload : {A : Type 0} → Bytes → (M → A) → Result IoError A
  decode_payload payload wrap = elim (b.deserialize payload) [
    | none ↦ err bincode_decode
    | some m ↦ ok (wrap m)
  ]

  unfoldable pub try_decode : Bytes → Result IoError (Option (M × ℕ))
  unfolding decode_payload
  try_decode (h0 ∷ h1 ∷ h2 ∷ h3 ∷ rest) =
      let len = u32_from_le_bytes h0 h1 h2 h3 in
      if ltb max_frame_bytes len
      then err (oversized len)
      else if ltb (4 + length rest) (4 + len)
      then ok none
      else decode_payload (take len rest) (λ m. some (m, 4 + len))
  try_decode _ = ok none

  -- The payload of a frame whose header has been read.
  unfoldable pub read_body : ℕ → Reader → Result IoError (Option M × Reader)
  unfolding decode_payload
  read_body len r =
      if ltb max_frame_bytes len then err (oversized len) else elim (read_exact len r) [
        | err e ↦ err (read_error e)
        | ok (payload, r') ↦ decode_payload payload (λ m. (some m, r'))
      ]

  unfoldable pub read_after_first : ℕ → Reader → Result IoError (Option M × Reader)
  unfolding read_body
  read_after_first h0 r = elim (read_exact 3 r) [
    | err e ↦ err (read_error e)
    | ok (tail, r') ↦ read_body (header_len h0 tail) r'
  ]

  -- `read_frame_async`. No byte at all before the close is a clean end.
  unfoldable pub read_frame_async : Reader → Result IoError (Option M × Reader)
  unfolding read_after_first
  read_frame_async r = elim r.bytes [
    | [] ↦ elim r.ending [ eof ↦ ok (none, r) | failing e ↦ err (read_error e) ]
    | h0 ∷ rest ↦ read_after_first h0 (record r { bytes = rest })
  ]
