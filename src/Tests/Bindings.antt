-- ===== src/Tests/Bindings.antt =====
-- The Node bindings at a concrete request and connection.
use chitin_model_api.Client.Sync.{SyncClient}
use chitin_model_api.Node.Answers.{IsAnswerOf, AreEventsOf, node_inference_stream-reply}
use chitin_model_api.Node.RoundTrip.{
  Handed, InRange, IsNumber, js_request, to_proto_request-js_request,
}
use chitin_model_api.Node.Translation.{IsNamed, to_proto_request-accepts_iff}
use chitin_model_api.Node.Types.{JsRequest, JsStreamEvent, JsResponse}
use chitin_model_api.Node.{Napi, NodeError, to_proto_request, node_inference_stream}
use chitin_model_api.Prelude.Lists.{length}
use chitin_model_api.Prelude.Result.{Result, ok}
use chitin_model_api.Prelude.Tests.{ltb}
use chitin_model_api.Prelude.Text.{Bytes, codes, u32_to_le_bytes}
use chitin_model_api.Prelude.{
  ℕ, ◌%◌, arith, ◌≡◌, ◌≤◌, refl, ◌↔◌, ◌++◌, List, [], ◌∷◌, none, some, false,
}
use chitin_model_api.Proto.{F32, InferenceRequest, protocol_version}
use chitin_model_api.Server.Handler.{reply, final}
use chitin_model_api.Server.Slot.{SlotEvent}
use chitin_model_api.Server.Streaming.{Action, handler_step, slot_step, channel_capacity, forwarded}
use chitin_model_api.Tests.Codecs.{codec, one_piece, ask, said, piece}
use chitin_model_api.Wire.Frames.{frames}
use chitin_model_api.Wire.{eof, encode}
use mathlib.Core.List.{Sublist}
use native.Mathlib.Decide.{ℕ_discrete}

-- An f64 as the f32 in its low bits, and a BigInt without a sign.
abbrev napi : Napi
napi = record {
  BigInt = ℕ;
  get_u64 = λ n. (false, n % 18446744073709551616, ltb n 18446744073709551616);
  as_f32 = λ n. n % 4294967296;
}

handed_f32 : (x : F32) → IsNumber x → x % 4294967296 ≡ x
handed_f32 x (h, k) = omega (arith, h)

abbrev handed : Handed napi
handed = record {
  as_f64 = λ x. x;
  as_bigint = λ n. n;
  as_f32_f64 = handed_f32;
  get_u64_bigint = λ n. refl;
}

ask-InRange : InRange ask
ask-InRange = record {
  cache_hash = omega arith;
  temperature = tt;
  top_p = tt;
  rep_penalty = tt;
  presence_penalty = tt;
}

abbrev wish : JsRequest ℕ
wish = record {
  role = codes "fast";
  input = codes "hi";
  max_tokens = 5;
  session_id = none;
  cache_hash = none;
  tools = none;
  tool_results = none;
  tool_mode = none;
  temperature = none;
  top_p = none;
  rep_penalty = none;
  presence_penalty = none;
  max_tokens_override = none;
  system_prompt = none;
  json_mode = none;
  disable_think_prefix = none;
  stream_chunk_chars = none;
  stream_thinking = none;
}

abbrev wished : InferenceRequest
wished = record ask { stream = false; progress = false }

to_proto_request-accepts_iff_example :
    ((p : InferenceRequest) × (to_proto_request napi wish ≡ ok p)) ↔ IsNamed napi wish
to_proto_request-accepts_iff_example = to_proto_request-accepts_iff napi wish

to_proto_request-js_request_example :
    to_proto_request napi (js_request napi handed (codes "hi") ask) ≡ ok wished
to_proto_request-js_request_example =
    to_proto_request-js_request napi handed (codes "hi") ask ask-InRange

abbrev turns_taken : InferenceRequest → Unit {0} → List Action
turns_taken req s = handler_step ∷ slot_step ∷ []

abbrev one_byte : ℕ → Bytes
one_byte n = 1 ∷ 0 ∷ 0 ∷ 0 ∷ n ∷ []

abbrev connected : SyncClient
connected = record {
  stream = record {
    reader = record { bytes = one_byte 1 ++ (one_byte 2 ++ one_byte 3); ending = eof };
    writer = record { sent = []; broken = false };
  };
  server_info = record {
    protocol_version = protocol_version;
    model_name = codes "m";
    gpu_memory_mb = none;
  };
  poisoned = false;
}

node_inference_stream-reply_example :
    (fw : List SlotEvent) × (events : List JsStreamEvent) × (answer : Result NodeError JsResponse)
    × (node_inference_stream napi codec connected (js_request napi handed (codes "hi") ask)
        ≡ some ((answer, record { bytes = one_byte 3; ending = eof }), events))
    × IsAnswerOf (ok said) answer
    × AreEventsOf fw events
    × Sublist fw (SlotEvent.chunk piece ∷ [])
    × (length (SlotEvent.chunk piece ∷ []) ≤ channel_capacity → fw ≡ SlotEvent.chunk piece ∷ [])
unfolding frames reply encode u32_to_le_bytes ℕ_discrete forwarded final
node_inference_stream-reply_example =
    node_inference_stream-reply one_piece turns_taken napi handed codec connected (codes "hi") ask
      tt (one_byte 1 ++ one_byte 2) (one_byte 3) ask-InRange
      (record { not_poisoned = refl; not_broken = refl; frame = one_byte 1; encodes = refl }) refl
      refl
