-- ===== src/Proto.antt =====
-- model_api_proto/src/lib.rs: the messages of the wire protocol. A string is its bytes, an `f32` its
-- bit pattern, a `u32` or `u64` a number whose range the theorems state where it matters.
use chitin_model_api.Prelude.{ℕ, Bool, false, List, Option}
use chitin_model_api.Prelude.Text.{Bytes}

abbrev pub F32 : Type 0
F32 = ℕ

abbrev pub protocol_version : ℕ
protocol_version = 3

pub data Role : Type 0 where
  system user assistant tool : Role

pub record Turn : Type 0 where
  pub role : Role
  pub content : Bytes
  pub tool_call_id : Option Bytes

-- `Turn::user`, `Turn::assistant`, `Turn::system` and `Turn::tool`.
abbrev pub user_turn : Bytes → Turn
user_turn c = record { role = user; content = c; tool_call_id = Option.none }

abbrev pub assistant_turn : Bytes → Turn
assistant_turn c = record { role = assistant; content = c; tool_call_id = Option.none }

abbrev pub system_turn : Bytes → Turn
system_turn c = record { role = system; content = c; tool_call_id = Option.none }

abbrev pub tool_turn : Bytes → Bytes → Turn
tool_turn c id = record { role = tool; content = c; tool_call_id = Option.some id }

pub data InferenceInput : Type 0 where
  text : Bytes → InferenceInput
  turns : List Turn → InferenceInput
  pcm : List F32 → ℕ → InferenceInput
  mel : List F32 → ℕ → InferenceInput

-- `JsonMode::None` is `unconstrained`.
pub data JsonMode : Type 0 where
  unconstrained tool_only thinking_with_tools any_json notes_classifier_json : JsonMode

pub data ToolMode : Type 0 where
  auto server client : ToolMode

pub record InferenceConfig : Type 0 where
  pub disable_think_prefix : Bool
  pub json_mode : JsonMode
  pub temperature : Option F32
  pub top_p : Option F32
  pub rep_penalty : Option F32
  pub presence_penalty : Option F32
  pub max_tokens : Option ℕ
  pub system_prompt : Option Bytes
  pub tool_mode : ToolMode
  pub stream_chunk_chars : Option ℕ
  pub stream_thinking : Bool

-- `impl Default for InferenceConfig`.
abbrev pub default_config : InferenceConfig
default_config = record {
  disable_think_prefix = false;
  json_mode = unconstrained;
  temperature = Option.none;
  top_p = Option.none;
  rep_penalty = Option.none;
  presence_penalty = Option.none;
  max_tokens = Option.none;
  system_prompt = Option.none;
  tool_mode = auto;
  stream_chunk_chars = Option.none;
  stream_thinking = false;
}

pub record ToolParam : Type 0 where
  pub name : Bytes
  pub param_type : Bytes
  pub required : Bool
  pub description : Bytes

pub record ToolDef : Type 0 where
  pub name : Bytes
  pub description : Bytes
  pub parameters : List ToolParam

pub record ToolCall : Type 0 where
  pub id : Bytes
  pub name : Bytes
  pub arguments_json : Bytes

pub record ToolResult : Type 0 where
  pub call_id : Bytes
  pub output : Bytes

pub data SessionMode : Type 0 where
  stateless : SessionMode
  persistent : Bytes → SessionMode

pub data GpuRole : Type 0 where
  fast deep asr omni : GpuRole

pub record StreamChunk : Type 0 where
  pub delta_text : Bytes
  pub finish_reason : Option Bytes
  pub phase : Option Bytes

pub record ProgressEvent : Type 0 where
  pub phase : Bytes
  pub tool : Option Bytes
  pub detail : Option Bytes

pub record SessionReplacement : Type 0 where
  pub template_session_id : Bytes
  pub input : Bytes

pub record InferenceResponse : Type 0 where
  pub text : Bytes
  pub session_id : Option Bytes
  pub raw_text : Option Bytes
  pub injections : List Bytes
  pub tool_calls : List ToolCall
  pub replacement : Option SessionReplacement

pub record InferenceRequest : Type 0 where
  pub role : GpuRole
  pub input : InferenceInput
  pub max_tokens : ℕ
  pub session : SessionMode
  pub inference_config : InferenceConfig
  pub tools : List ToolDef
  pub tool_results : List ToolResult
  pub cache_hash : ℕ
  pub stream : Bool
  pub progress : Bool

pub data ClientMessage : Type 0 where
  hello : ℕ → ClientMessage
  inference : InferenceRequest → ClientMessage
  cancel shutdown : ClientMessage

pub data ServerMessage : Type 0 where
  hello : ℕ → Bytes → Option ℕ → ServerMessage
  progress : ProgressEvent → ServerMessage
  chunk : StreamChunk → ServerMessage
  inference_complete : InferenceResponse → ServerMessage
  inference_error : Bytes → ServerMessage
  goodbye : ServerMessage
