-- ===== src/Node/Types.antt =====
-- model_api_node/src/lib.rs: the shapes that JavaScript sees. The Rust structs have the names of
-- those of model_api_proto; here they start with `Js`.
use chitin_model_api.Prelude.Text.{Bytes}
use chitin_model_api.Prelude.{ℕ, Bool, List, Option}

pub record JsToolParam : Type 0 where
  pub name : Bytes
  pub param_type : Bytes
  pub required : Bool
  pub description : Bytes

pub record JsToolDef : Type 0 where
  pub name : Bytes
  pub description : Bytes
  pub parameters : List JsToolParam

pub record JsToolCall : Type 0 where
  pub id : Bytes
  pub name : Bytes
  pub arguments_json : Bytes

pub record JsToolResult : Type 0 where
  pub call_id : Bytes
  pub output : Bytes

pub record JsSessionReplacement : Type 0 where
  pub template_session_id : Bytes
  pub input : Bytes

pub record JsStreamEvent : Type 0 where
  pub kind : Bytes
  pub delta_text : Option Bytes
  pub finish_reason : Option Bytes
  pub phase : Option Bytes
  pub tool : Option Bytes
  pub detail : Option Bytes

-- The parameter is napi's BigInt; a number is its f64's bits.
pub record JsRequest (BigInt : Type 0) : Type 0 where
  pub role : Bytes
  pub input : Bytes
  pub max_tokens : ℕ
  pub session_id : Option Bytes
  pub cache_hash : Option BigInt
  pub tools : Option (List JsToolDef)
  pub tool_results : Option (List JsToolResult)
  pub tool_mode : Option Bytes
  pub temperature : Option ℕ
  pub top_p : Option ℕ
  pub rep_penalty : Option ℕ
  pub presence_penalty : Option ℕ
  pub max_tokens_override : Option ℕ
  pub system_prompt : Option Bytes
  pub json_mode : Option Bytes
  pub disable_think_prefix : Option Bool
  pub stream_chunk_chars : Option ℕ
  pub stream_thinking : Option Bool

pub record JsResponse : Type 0 where
  pub text : Bytes
  pub session_id : Option Bytes
  pub raw_text : Option Bytes
  pub injections : List Bytes
  pub tool_calls : List JsToolCall
  pub replacement : Option JsSessionReplacement
