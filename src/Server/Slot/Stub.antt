-- ===== src/Server/Slot/Stub.antt =====
-- model_api_server/src/slot.rs: `StubSlot`, which echoes the prompt.
pub mod Chunks
use chitin_model_api.Prelude.Lists.{length, find_map}
use chitin_model_api.Prelude.Result.{Result, ok}
use chitin_model_api.Prelude.Tests.{◌==◌, ltb, leb, if◌then◌else◌}
use chitin_model_api.Prelude.Text.{Bytes, codes, decimal, chars}
use chitin_model_api.Prelude.{
  ℕ, suc, ◌+◌, ◌/◌, ◌%◌, max, Bool, true, false, ◌&&◌, ◌||◌, List, [], ◌∷◌, ◌++◌, Option, none,
  some,
}
use chitin_model_api.Proto.{
  InferenceRequest, InferenceResponse, InferenceInput, text, turns, pcm, mel, Turn, Role, user,
  system, assistant, tool, SessionMode, stateless, persistent, ToolCall, ToolDef, StreamChunk,
  ProgressEvent,
}
use chitin_model_api.Server.Slot.{SlotEvent, Run, SlotHandle, default_cancel_in_flight}
use mathlib.Core.List.{reverse}

user_content : Turn → Option Bytes
user_content t = elim t.role [ user ↦ some t.content | _ ↦ none ]

-- The first user turn of the reversed list: the last one of the conversation.
unfoldable pub last_user : List Turn → Bytes
unfolding user_content
last_user ts = elim (find_map user_content (reverse ts)) [
  | some c ↦ c
  | none ↦ codes "[stub: empty turns]"
]

unfoldable pub prompt_of : InferenceInput → Bytes
unfolding last_user
prompt_of (text t) = t
prompt_of (turns ts) = last_user ts
prompt_of (pcm samples rate) = codes "[stub: pcm]"
prompt_of (mel values frames) = codes "[stub: mel]"

unfoldable pub session_of : SessionMode → Option Bytes
session_of stateless = none
session_of (persistent session_id) = some session_id

first_call : List ToolDef → List ToolCall
first_call [] = []
first_call (first ∷ _) =
    record { id = codes "tc-0"; name = first.name; arguments_json = codes "{}" } ∷ []

unfoldable pub synth_echo_response : InferenceRequest → InferenceResponse
unfolding prompt_of session_of first_call
synth_echo_response req =
    let prompt = prompt_of req.input in
    record {
      text = codes "echo: " ++ prompt;
      session_id = session_of req.session;
      raw_text = some (codes "<raw>echo: " ++ (prompt ++ codes "</raw>"));
      injections = [];
      tool_calls = first_call req.tools;
      replacement = none;
    }

text_chunk : Bytes → Option Bytes → SlotEvent
text_chunk delta finish =
    SlotEvent.chunk
      (record { delta_text = delta; finish_reason = finish; phase = some (codes "text") })

-- One round of the loop over the characters, for the character number `i` of `n`: the chunk that
-- it emits, if it does, and what stays in `buf`.
unfoldable pub emits : ℕ → ℕ → ℕ → Bool
emits n chunk_size i = (i + 1) % chunk_size == 0 || i + 1 == n

unfoldable pub chunks_from : ℕ → ℕ → ℕ → Bytes → List Bytes → List SlotEvent
unfolding text_chunk emits
chunks_from n chunk_size i buf [] = []
chunks_from n chunk_size i buf (ch ∷ chs) =
    let buf' = buf ++ ch in
    elim (emits n chunk_size i) [
      | true ↦
          text_chunk buf' (if i + 1 == n then some (codes "stop") else none)
          ∷ chunks_from n chunk_size (i + 1) [] chs
      | false ↦ chunks_from n chunk_size (i + 1) buf' chs
    ]

progress_event : Bytes → Option Bytes → SlotEvent
progress_event phase detail =
    SlotEvent.progress (record { phase = phase; tool = none; detail = detail })

-- The chunks of `run_stream` for a response text.
unfoldable pub text_chunks : Bytes → List SlotEvent
unfolding chunks_from
text_chunks t =
    let cs = chars t in let n = max (length cs) 1 in chunks_from n (max (n / 3) 1) 0 [] cs

unfoldable pub stub_events : InferenceRequest → List SlotEvent
unfolding text_chunks progress_event synth_echo_response
stub_events req =
    let t = (synth_echo_response req).text in
    progress_event (codes "queued") none
    ∷ progress_event (codes "gen_start") none
    ∷ (text_chunks t
        ++ (progress_event (codes "gen_done")
              (some (decimal (max (length (chars t)) 1) ++ codes " chars"))
            ∷ []))

-- The stub has no state.
abbrev pub stub_slot : Bytes → SlotHandle (Unit {0})
stub_slot name = record {
  model_name = name;
  gpu_memory_mb = none;
  run = λ req s. (ok (synth_echo_response req), s);
  run_stream = λ req s. record {
    events = stub_events req;
    result = ok (synth_echo_response req);
    state = s;
  };
  cancel_in_flight = default_cancel_in_flight;
}
