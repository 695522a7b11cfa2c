-- ===== src/Tests/Frames.antt =====
-- The frame codec and the streaming reply at concrete inputs.
use chitin_model_api.Prelude.Result.{ok}
use chitin_model_api.Prelude.Text.{Bytes, codes, u32_to_le_bytes, u32_from_le_bytes}
use chitin_model_api.Prelude.{◌≡◌, ◌≤◌, refl, ◌++◌, ◌+◌, map, List, [], ◌∷◌, none, some, false}
use chitin_model_api.Prelude.Lists.{length}
use chitin_model_api.Proto.{ServerMessage}
use chitin_model_api.Server.Slot.Stub.Chunks.{shown, shown-text_chunks}
use chitin_model_api.Server.Slot.Stub.{text_chunks}
use chitin_model_api.Server.Slot.{SlotEvent}
use chitin_model_api.Server.Streaming.Settle.{forwarded-Sublist}
use chitin_model_api.Server.Streaming.{
  forwarded, frame_of, handler_step, slot_step, channel_capacity,
}
use chitin_model_api.Tests.Codecs.{plain, piece, said}
use chitin_model_api.Wire.Decode.{try_decode-encode, try_decode_partial, try_decode_bounds}
use chitin_model_api.Wire.Sequence.{read_frames, write_frames, read_frames-write_frames}
use chitin_model_api.Wire.Stream.{from_buffer, read_frame_async-try_decode}
use chitin_model_api.Wire.{
  encode, try_decode, read_frame_async, write_frame_async, write_all, max_frame_bytes, Writer, eof,
}
use mathlib.Core.List.{Sublist}

abbrev three : Bytes
three = 7 ∷ 8 ∷ 9 ∷ []

abbrev three_framed : Bytes
three_framed = 3 ∷ 0 ∷ 0 ∷ 0 ∷ 7 ∷ 8 ∷ 9 ∷ []

try_decode-encode_example : try_decode plain (three_framed ++ (1 ∷ [])) ≡ ok (some (three, 7))
unfolding encode u32_to_le_bytes
try_decode-encode_example = try_decode-encode plain three three_framed (1 ∷ []) refl

try_decode_partial_example : try_decode plain (3 ∷ 0 ∷ 0 ∷ 0 ∷ 7 ∷ []) ≡ ok none
unfolding encode u32_to_le_bytes
try_decode_partial_example = try_decode_partial plain three 8 (3 ∷ 0 ∷ 0 ∷ 0 ∷ 7 ∷ []) (9 ∷ []) refl

try_decode_bounds_example : (4 ≤ 7) × (7 ≤ length three_framed) × (7 ≤ 4 + max_frame_bytes)
unfolding try_decode u32_from_le_bytes
try_decode_bounds_example = try_decode_bounds plain three_framed three 7 refl

read_frame_async-try_decode_example :
    read_frame_async plain (record { bytes = three_framed; ending = eof })
    ≡ from_buffer plain three_framed eof (try_decode plain three_framed)
read_frame_async-try_decode_example =
    read_frame_async-try_decode plain 3 (0 ∷ 0 ∷ 0 ∷ 7 ∷ 8 ∷ 9 ∷ []) eof

abbrev idle : Writer
idle = record { sent = []; broken = false }

abbrev two : List Bytes
two = three ∷ [] ∷ []

abbrev two_framed : Bytes
two_framed = three_framed ++ (0 ∷ 0 ∷ 0 ∷ 0 ∷ [])

read_frames-write_frames_example :
    (out : Bytes) × (two_framed ≡ idle.sent ++ out)
    × (read_frames plain 3 (record { bytes = out; ending = eof }) ≡ ok (some two))
unfolding write_frames write_frame_async encode write_all u32_to_le_bytes
read_frames-write_frames_example =
    read_frames-write_frames plain two idle (record { sent = two_framed; broken = false }) refl

abbrev one : List SlotEvent
one = SlotEvent.chunk piece ∷ []

forwarded-Sublist_example :
    (fw : List SlotEvent) × (forwarded
        (handler_step ∷ slot_step ∷ [])
        one
        (ServerMessage.inference_complete said)
      ≡ map frame_of fw ++ (ServerMessage.inference_complete said ∷ []))
    × Sublist fw one
    × (length one ≤ channel_capacity → fw ≡ one)
forwarded-Sublist_example =
    forwarded-Sublist (ServerMessage.inference_complete said) (handler_step ∷ slot_step ∷ []) one

shown-text_chunks_example : shown (text_chunks (codes "hello")) ≡ codes "hello"
shown-text_chunks_example = shown-text_chunks (codes "hello")
