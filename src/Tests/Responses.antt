-- ===== src/Tests/Responses.antt =====
-- The client's loops at concrete streams.
use chitin_model_api.Client.Requests.Delivery.{complete, frame_of, await_stream-frames}
use chitin_model_api.Client.Requests.{await_stream}
use chitin_model_api.Client.Sync.{StreamEvent}
use chitin_model_api.Prelude.Result.{ok}
use chitin_model_api.Prelude.Text.{Bytes, u32_to_le_bytes}
use chitin_model_api.Prelude.{ℕ, ◌≡◌, refl, ◌++◌, [], ◌∷◌, some, arith}
use chitin_model_api.Proto.{ServerMessage}
use chitin_model_api.Tests.Codecs.{codec, said, piece}
use chitin_model_api.Wire.Frames.{frames}
use chitin_model_api.Wire.{Reader, eof, encode}
use native.Mathlib.Decide.{ℕ_discrete}

abbrev one_byte : ℕ → Bytes
one_byte n = 1 ∷ 0 ∷ 0 ∷ 0 ∷ n ∷ []

-- A piece, the response, and a frame of the next answer.
abbrev stream : Reader
stream = record { bytes = one_byte 1 ++ (one_byte 2 ++ one_byte 3); ending = eof }

await_stream-frames_example :
    await_stream codec 2 [] stream
    ≡ some (
      record { result = ok said; reader = record { bytes = one_byte 3; ending = eof } },
      StreamEvent.chunk piece ∷ [],
    )
unfolding frames encode u32_to_le_bytes ℕ_discrete frame_of
await_stream-frames_example =
    await_stream-frames codec eof (StreamEvent.chunk piece ∷ []) []
      (ServerMessage.inference_complete said) (ok said) (one_byte 1 ++ one_byte 2) (one_byte 3) 2
      (complete said) refl (omega arith)
