-- ===== src/Server/Framed/Mirror.antt =====
-- model_api_server/src/framed.rs beside model_api_client/src/framed.rs.
use chitin_model_api.Prelude.{◌≡◌, refl}
use chitin_model_api.Prelude.{◌∷◌, arith}
use chitin_model_api.Prelude.Text.{Bytes}
use chitin_model_api.Server.Framed
use chitin_model_api.Wire
use chitin_model_api.Wire.{Bincode, Reader, Writer}

module _ {M : Type 0} (b : Bincode M) where
  pub encode-eq : (m : M) → Framed.encode b m ≡ Wire.encode b m
  unfolding Framed.encode Wire.encode
  encode-eq m = ground arith

  -- The server writes a frame as the client does.
  pub write_frame_async-eq :
      (w : Writer) (m : M) → Framed.write_frame_async b w m ≡ Wire.write_frame_async b w m
  unfolding Framed.write_frame_async Wire.write_frame_async
  write_frame_async-eq w m = ground (arith, encode-eq m)

  pub try_decode-eq : (buf : Bytes) → Framed.try_decode b buf ≡ Wire.try_decode b buf
  unfolding Framed.try_decode Wire.try_decode
  try_decode-eq (h0 ∷ h1 ∷ h2 ∷ h3 ∷ rest) = ground arith
  try_decode-eq _ = refl

  -- The server reads a frame as the client does.
  pub read_frame_async-eq : (r : Reader) → Framed.read_frame_async b r ≡ Wire.read_frame_async b r
  unfolding Framed.read_frame_async Wire.read_frame_async
  read_frame_async-eq r = ground arith
