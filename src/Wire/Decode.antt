-- ===== src/Wire/Decode.antt =====
-- model_api_client/src/framed.rs: `try_decode` on what `encode` wrote, and on any input.
use chitin_model_api.Prelude.{
  ℕ, ◌+◌, ◌%◌, ◌/◌, ◌^◌, ◌≤◌, ◌<◌, ◌≡◌, refl, sym, ap, ◌∷◌, ◌++◌, Option, none, some, arith,
  append_assoc,
}
use chitin_model_api.Prelude.Lists.{length, length-append, take-append, take-append_le}
use chitin_model_api.Prelude.Result.{ok}
use chitin_model_api.Prelude.Tests.{le→ltb, lt→ltb}
use chitin_model_api.Prelude.Text.{Bytes, u32_to_le_bytes, u32_from_le_bytes}
use chitin_model_api.Wire.{Bincode, max_frame_bytes, encode, try_decode, decode_payload}

pub le_bytes_round_trip :
    (n : ℕ)
    → n < 2 ^ 32
    → u32_from_le_bytes (n % 256) (n / 256 % 256) (n / 65536 % 256) (n / 16777216 % 256) ≡ n
unfolding u32_from_le_bytes
le_bytes_round_trip n h = omega arith

pub length-framed : (n : ℕ) (p : Bytes) → length (u32_to_le_bytes n ++ p) ≡ 4 + length p
unfolding u32_to_le_bytes
length-framed n p = omega arith

module _ {M : Type 0} (b : Bincode M) where
  -- What a successful `encode` wrote: a payload within the cap, behind its length.
  pub encode_shape :
      (m : M) (frame : Bytes)
      → encode b m ≡ ok frame
      → (p : Bytes) × (b.serialize m ≡ some p)
        × (length p ≤ max_frame_bytes)
        × (frame ≡ u32_to_le_bytes (length p) ++ p)
  unfolding encode
  encode_shape m frame h = shape (b.serialize m) refl
    where
      shape :
          (o : Option Bytes)
          → b.serialize m ≡ o
          → (p : Bytes) × (b.serialize m ≡ some p)
            × (length p ≤ max_frame_bytes)
            × (frame ≡ u32_to_le_bytes (length p) ++ p)
      shape none e = absurd (ground arith)
      shape (some p) e = (p, e, ground arith, ground arith)

  -- A payload behind its header, decoded with anything behind it.
  try_decode_framed :
      (m : M) (p rest : Bytes)
      → length p ≤ max_frame_bytes
      → b.deserialize p ≡ some m
      → try_decode b (u32_to_le_bytes (length p) ++ (p ++ rest)) ≡ ok (some (m, 4 + length p))
  unfolding try_decode u32_to_le_bytes
  try_decode_framed m p rest h d =
      rw
        (
          le_bytes_round_trip (length p) (omega arith),
          le→ltb max_frame_bytes (length p) h,
          le→ltb (4 + length (p ++ rest)) (4 + length p) (omega (arith, length-append p rest)),
          take-append p rest,
          d,
          decode_payload,
        )
        (rw (le_bytes_round_trip (length p) (omega arith)))

  -- Short of its payload a frame is not decoded.
  try_decode_short :
      (n : ℕ) (p : Bytes)
      → n ≤ max_frame_bytes
      → length p < n
      → try_decode b (u32_to_le_bytes n ++ p) ≡ ok none
  unfolding try_decode u32_to_le_bytes
  try_decode_short n p h l = rw (
    le_bytes_round_trip n (omega arith),
    le→ltb max_frame_bytes n h,
    lt→ltb (4 + length p) (4 + n) (omega arith),
  )

  -- A frame with anything behind it is decoded to its message, and exactly the frame is consumed.
  pub try_decode-encode :
      (m : M) (frame rest : Bytes)
      → encode b m ≡ ok frame
      → try_decode b (frame ++ rest) ≡ ok (some (m, length frame))
  unfolding try_decode
  try_decode-encode m frame rest h =
      let (p, s, l, e) = encode_shape m frame h in
      rw (e, append_assoc, length-framed)
        (try_decode_framed m p rest l (b.deserialize-serialize m p s))

  try_decode_prefix :
      (n x : ℕ) (front back p : Bytes)
      → length p ≡ n
      → n ≤ max_frame_bytes
      → u32_to_le_bytes n ++ p ≡ front ++ (x ∷ back)
      → try_decode b front ≡ ok none
  unfolding u32_to_le_bytes
  try_decode_prefix n x (h0 ∷ h1 ∷ h2 ∷ h3 ∷ rest) back p l h e =
      let front_is : (h0 ∷ h1 ∷ h2 ∷ h3 ∷ rest) ≡ u32_to_le_bytes n ++ rest = cc in
      let split : p ≡ rest ++ (x ∷ back) = cc in
      rw front_is
        (try_decode_short n rest h (omega (arith, ap length split, length-append rest (x ∷ back))))
  try_decode_prefix n x _ back p l h e = unfold try_decode in refl

  -- Before the frame is complete the answer is "need more bytes", at every proper prefix.
  pub try_decode_partial :
      (m : M) (x : ℕ) (front back : Bytes)
      → encode b m ≡ ok (front ++ (x ∷ back))
      → try_decode b front ≡ ok none
  try_decode_partial m x front back h =
      let (p, s, l, e) = encode_shape m (front ++ (x ∷ back)) h in
      try_decode_prefix (length p) x front back p refl l (sym e)

  -- What is consumed lies in the buffer and holds at least the header and at most a full frame.
  pub try_decode_bounds :
      (buf : Bytes) (m : M) (n : ℕ)
      → try_decode b buf ≡ ok (some (m, n))
      → (4 ≤ n) × (n ≤ length buf) × (n ≤ 4 + max_frame_bytes)
  unfolding try_decode
  try_decode_bounds (h0 ∷ h1 ∷ h2 ∷ h3 ∷ rest) m n h = ground arith
  try_decode_bounds _ m n h = ground arith

  -- Bytes that arrive later change no answer but "need more bytes".
  pub try_decode-append :
      (buf more : Bytes) (m : M) (n : ℕ)
      → try_decode b buf ≡ ok (some (m, n))
      → try_decode b (buf ++ more) ≡ ok (some (m, n))
  unfolding try_decode
  try_decode-append (h0 ∷ h1 ∷ h2 ∷ h3 ∷ rest) more m n h =
      ground
        (arith, length-append rest more, take-append_le (u32_from_le_bytes h0 h1 h2 h3) rest more)
  try_decode-append _ more m n h = ground arith
