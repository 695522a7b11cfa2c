-- ===== src/Tests/Sessions.antt =====
-- A whole connection at a concrete slot and codec.
use chitin_model_api.Client.Requests.{inference, inference_stream}
use chitin_model_api.Client.Sync.{SyncClient}
use chitin_model_api.EndToEnd.Answers.{inference-reply}
use chitin_model_api.EndToEnd.{event_of, inference_stream-reply}
use chitin_model_api.Prelude.Result.{ok}
use chitin_model_api.Prelude.Lists.{length}
use chitin_model_api.Prelude.Text.{Bytes, codes, u32_to_le_bytes}
use chitin_model_api.Prelude.{ℕ, ◌≡◌, ◌≤◌, refl, ◌++◌, map, List, [], ◌∷◌, none, some, false}
use chitin_model_api.Proto.{ClientMessage, InferenceRequest, protocol_version}
use chitin_model_api.Server.Handler.Session.{answers, handle_client-answers}
use chitin_model_api.Server.Handler.{handle_client, reply, final}
use chitin_model_api.Server.Slot.{SlotEvent}
use chitin_model_api.Server.Streaming.{Action, handler_step, slot_step, channel_capacity, forwarded}
use chitin_model_api.Tests.Codecs.{codec, one_piece, ask, said, piece}
use chitin_model_api.Wire.Frames.{frames}
use chitin_model_api.Wire.{Writer, eof, encode}
use mathlib.Core.List.{Sublist}
use native.Mathlib.Decide.{ℕ_discrete}

abbrev turns_taken : InferenceRequest → Unit {0} → List Action
turns_taken req s = handler_step ∷ slot_step ∷ []

abbrev one_byte : ℕ → Bytes
one_byte n = 1 ∷ 0 ∷ 0 ∷ 0 ∷ n ∷ []

abbrev idle : Writer
idle = record { sent = []; broken = false }

handle_client-answers_example :
    handle_client one_piece turns_taken codec.to_server codec.to_client
      (record { bytes = one_byte 0 ++ (one_byte 1 ++ (one_byte 2 ++ one_byte 3)); ending = eof })
      idle
      tt
    ≡ some (record {
      result = ok tt;
      writer = record {
        sent = one_byte 0 ++ (one_byte 1 ++ (one_byte 2 ++ one_byte 3));
        broken = false;
      };
      state = tt;
    })
unfolding frames answers encode u32_to_le_bytes ℕ_discrete reply forwarded final
handle_client-answers_example =
    handle_client-answers one_piece turns_taken codec.to_server codec.to_client
      (ClientMessage.inference ask ∷ ClientMessage.cancel ∷ ClientMessage.shutdown ∷ [])
      (one_byte 0 ++ (one_byte 1 ++ (one_byte 2 ++ one_byte 3)))
      (one_byte 0 ++ (one_byte 1 ++ (one_byte 2 ++ one_byte 3))) idle tt refl refl refl

abbrev connected : SyncClient
connected = record {
  stream = record {
    reader = record { bytes = one_byte 1 ++ (one_byte 2 ++ one_byte 3); ending = eof };
    writer = idle;
  };
  server_info = record {
    protocol_version = protocol_version;
    model_name = codes "m";
    gpu_memory_mb = none;
  };
  poisoned = false;
}

inference_stream-reply_example :
    (fw : List SlotEvent) × (inference_stream codec connected ask
      ≡ some (
        record { result = ok said; reader = record { bytes = one_byte 3; ending = eof } },
        map event_of fw,
      ))
    × Sublist fw (SlotEvent.chunk piece ∷ [])
    × (length (SlotEvent.chunk piece ∷ []) ≤ channel_capacity → fw ≡ SlotEvent.chunk piece ∷ [])
unfolding frames reply encode u32_to_le_bytes ℕ_discrete forwarded final
inference_stream-reply_example =
    inference_stream-reply one_piece turns_taken codec connected ask tt (one_byte 1 ++ one_byte 2)
      (one_byte 3)
      (record { not_poisoned = refl; not_broken = refl; frame = one_byte 1; encodes = refl }) refl
      refl

inference-reply_example :
    inference codec connected ask
    ≡ some (record { result = ok said; reader = record { bytes = one_byte 3; ending = eof } })
unfolding frames reply encode u32_to_le_bytes ℕ_discrete forwarded final
inference-reply_example =
    inference-reply one_piece turns_taken codec connected ask tt (one_byte 1 ++ one_byte 2)
      (one_byte 3)
      (record { not_poisoned = refl; not_broken = refl; frame = one_byte 1; encodes = refl }) refl
      refl
