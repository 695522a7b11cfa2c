-- ===== src/Node.antt =====
-- model_api_node/src/lib.rs: the Node bindings over the synchronous client. Of napi, a JavaScript
-- number is its f64's bits, and the cast to f32 and the reading of a BigInt are parameters. A failed
-- join, which is a panic of the blocking task, is not modelled; a message is a constructor.
pub mod Types
pub mod Translation
pub mod RoundTrip
pub mod Answers
use chitin_model_api.Client.Requests.{Outcome, Streamed}
use chitin_model_api.Client.Requests
use chitin_model_api.Client.Sync.{StreamEvent, ClientError, SyncClient, Codec}
use chitin_model_api.Node.Types.{
  JsToolParam, JsToolDef, JsToolCall, JsToolResult, JsSessionReplacement, JsStreamEvent, JsRequest,
  JsResponse,
}
use chitin_model_api.Prelude.Result.{Result, ok, err, ◌>>=◌, map_err}
use chitin_model_api.Prelude.Tests.{if◌then◌else◌}
use chitin_model_api.Prelude.Text.{Bytes, codes, bytes_eq}
use chitin_model_api.Prelude.{ℕ, Bool, true, false, List, [], ◌∷◌, Option, none, some, map}
use chitin_model_api.Proto.{
  F32, GpuRole, ToolMode, JsonMode, InferenceInput, SessionMode, ToolParam, ToolDef, ToolResult,
  InferenceRequest, InferenceResponse,
}
use chitin_model_api.Wire.{Reader}

pub data RequestError : Type 0 where
  bad_role bad_tool_mode bad_json_mode : Bytes → RequestError

-- The matches of `to_proto_request` on strings.
unfoldable pub role_of : Bytes → Result RequestError GpuRole
unfolding bytes_eq
role_of s =
    if bytes_eq s (codes "fast")
    then ok GpuRole.fast
    else if bytes_eq s (codes "deep")
    then ok GpuRole.deep
    else if bytes_eq s (codes "asr")
    then ok GpuRole.asr
    else if bytes_eq s (codes "omni")
    then ok GpuRole.omni
    else err (bad_role s)

unfoldable pub tool_mode_of : Option Bytes → Result RequestError ToolMode
unfolding bytes_eq
tool_mode_of none = ok ToolMode.auto
tool_mode_of (some s) =
    if bytes_eq s (codes "auto")
    then ok ToolMode.auto
    else if bytes_eq s (codes "server")
    then ok ToolMode.server
    else if bytes_eq s (codes "client")
    then ok ToolMode.client
    else err (bad_tool_mode s)

unfoldable pub json_mode_of : Option Bytes → Result RequestError JsonMode
unfolding bytes_eq
json_mode_of none = ok JsonMode.unconstrained
json_mode_of (some s) =
    if bytes_eq s (codes "none")
    then ok JsonMode.unconstrained
    else if bytes_eq s (codes "tool-only")
    then ok JsonMode.tool_only
    else if bytes_eq s (codes "thinking-with-tools")
    then ok JsonMode.thinking_with_tools
    else if bytes_eq s (codes "any-json")
    then ok JsonMode.any_json
    else if bytes_eq s (codes "notes-classifier-json")
    then ok JsonMode.notes_classifier_json
    else err (bad_json_mode s)

abbrev or_false : Option Bool → Bool
or_false none = false
or_false (some b) = b

abbrev or_empty : {A : Type 0} → Option (List A) → List A
or_empty none = []
or_empty (some xs) = xs

abbrev pub session_mode_of : Option Bytes → SessionMode
session_mode_of none = SessionMode.stateless
session_mode_of (some id) = SessionMode.persistent id

abbrev pub map_option : {A B : Type 0} → (A → B) → Option A → Option B
map_option f none = none
map_option f (some a) = some (f a)

unfoldable pub to_proto_tool_param : JsToolParam → ToolParam
to_proto_tool_param p = record {
  name = p.name;
  param_type = p.param_type;
  required = p.required;
  description = p.description;
}

unfoldable pub to_proto_tool_def : JsToolDef → ToolDef
unfolding to_proto_tool_param
to_proto_tool_def t = record {
  name = t.name;
  description = t.description;
  parameters = map to_proto_tool_param t.parameters;
}

unfoldable pub to_proto_tool_result : JsToolResult → ToolResult
to_proto_tool_result r = record { call_id = r.call_id; output = r.output }

unfoldable pub rust_event_to_napi : StreamEvent → JsStreamEvent
rust_event_to_napi (StreamEvent.chunk c) = record {
  kind = codes "chunk";
  delta_text = some c.delta_text;
  finish_reason = c.finish_reason;
  phase = c.phase;
  tool = none;
  detail = none;
}
rust_event_to_napi (StreamEvent.progress p) = record {
  kind = codes "progress";
  delta_text = none;
  finish_reason = none;
  phase = some p.phase;
  tool = p.tool;
  detail = p.detail;
}

unfoldable pub from_proto_response : InferenceResponse → JsResponse
from_proto_response r = record {
  text = r.text;
  session_id = r.session_id;
  raw_text = r.raw_text;
  injections = r.injections;
  tool_calls =
      map (λ c. record { id = c.id; name = c.name; arguments_json = c.arguments_json })
        r.tool_calls;
  replacement =
      map_option (λ s. record { template_session_id = s.template_session_id; input = s.input })
        r.replacement;
}

pub record Napi : Type 1 where
  pub BigInt : Type 0
  -- The sign, the value's low 64 bits, and whether that is all of it.
  pub get_u64 : BigInt → Bool × ℕ × Bool
  pub as_f32 : ℕ → F32

pub data NodeError : Type 0 where
  bad_request : RequestError → NodeError
  client : ClientError → NodeError

module _ (napi : Napi) where
  abbrev cache_hash_of : Option napi.BigInt → ℕ
  cache_hash_of none = 0
  cache_hash_of (some b) = (napi.get_u64 b).1

  -- The request that is built once the three names are read.
  unfoldable pub request_with :
      GpuRole → ToolMode → JsonMode → JsRequest napi.BigInt → InferenceRequest
  unfolding to_proto_tool_def to_proto_tool_result
  request_with role tool_mode json_mode r = record {
    role = role;
    input = InferenceInput.text r.input;
    max_tokens = r.max_tokens;
    session = session_mode_of r.session_id;
    inference_config = record {
      disable_think_prefix = or_false r.disable_think_prefix;
      json_mode = json_mode;
      temperature = map_option napi.as_f32 r.temperature;
      top_p = map_option napi.as_f32 r.top_p;
      rep_penalty = map_option napi.as_f32 r.rep_penalty;
      presence_penalty = map_option napi.as_f32 r.presence_penalty;
      max_tokens = r.max_tokens_override;
      system_prompt = r.system_prompt;
      tool_mode = tool_mode;
      stream_chunk_chars = r.stream_chunk_chars;
      stream_thinking = or_false r.stream_thinking;
    };
    tools = map to_proto_tool_def (or_empty r.tools);
    tool_results = map to_proto_tool_result (or_empty r.tool_results);
    cache_hash = cache_hash_of r.cache_hash;
    stream = false;
    progress = false;
  }

  unfoldable pub to_proto_request : JsRequest napi.BigInt → Result RequestError InferenceRequest
  unfolding role_of tool_mode_of json_mode_of request_with
  to_proto_request r = do
    role ← role_of r.role
    tool_mode ← tool_mode_of r.tool_mode
    json_mode ← json_mode_of r.json_mode
    ok (request_with role tool_mode json_mode r)

  -- What a promise settles with, and the connection's reader after it.
  abbrev pub Settled : Type 0
  Settled = Result NodeError JsResponse × Reader

  abbrev pub resolved : Result ClientError InferenceResponse → Result NodeError JsResponse
  resolved (ok resp) = ok (from_proto_response resp)
  resolved (err e) = err (client e)

  settle_call : Option (Outcome InferenceResponse) → Option Settled
  settle_call none = none
  settle_call (some o) = some (resolved o.result, o.reader)

  unfoldable pub settle_stream : Option Streamed → Option (Settled × List JsStreamEvent)
  unfolding rust_event_to_napi
  settle_stream none = none
  settle_stream (some (o, seen)) = some ((resolved o.result, o.reader), map rust_event_to_napi seen)

  module _ (c : Codec) (k : SyncClient) where
    -- `Client::inference`.
    unfoldable pub node_inference : JsRequest napi.BigInt → Option Settled
    unfolding to_proto_request Requests.inference settle_call
    node_inference req = elim (to_proto_request req) [
      | err e ↦ some (err (bad_request e), k.stream.reader)
      | ok p ↦ settle_call (Requests.inference c k p)
    ]

    -- `Client::inference_stream`, with the calls of `onEvent`.
    unfoldable pub node_inference_stream :
        JsRequest napi.BigInt → Option (Settled × List JsStreamEvent)
    unfolding to_proto_request Requests.inference_stream settle_stream
    node_inference_stream req = elim (to_proto_request req) [
      | err e ↦ some ((err (bad_request e), k.stream.reader), [])
      | ok p ↦ settle_stream (Requests.inference_stream c k (record p { stream = true }))
    ]
