-- ===== src/Node/RoundTrip.antt =====
-- Every text request of the protocol can be asked from JavaScript.
use chitin_model_api.Node.Translation.{
  role_name, tool_mode_name, json_mode_name, role_of-role_name, tool_mode_of-tool_mode_name,
  json_mode_of-json_mode_name, accepted,
}
use chitin_model_api.Node.Types.{JsToolParam, JsToolDef, JsToolResult, JsRequest}
use chitin_model_api.Node.{
  Napi, to_proto_tool_param, to_proto_tool_def, to_proto_tool_result, request_with,
  to_proto_request, map_option, session_mode_of,
}
use chitin_model_api.Prelude.Result.{ok}
use chitin_model_api.Prelude.Text.{Bytes}
use chitin_model_api.Prelude.{
  ℕ, ◌%◌, ◌≤◌, ◌<◌, arith, ◌≡◌, refl, ap, ◌∙◌, false, List, [], ◌∷◌, Option, none, some, map,
}
use chitin_model_api.Proto.{
  F32, InferenceInput, SessionMode, ToolParam, ToolDef, ToolResult, InferenceRequest,
}

-- The request in the shape of the bindings' declarations.
js_param : ToolParam → JsToolParam
js_param p = record {
  name = p.name;
  param_type = p.param_type;
  required = p.required;
  description = p.description;
}

js_tool : ToolDef → JsToolDef
unfolding js_param
js_tool t = record {
  name = t.name;
  description = t.description;
  parameters = map js_param t.parameters;
}

js_result : ToolResult → JsToolResult
js_result r = record { call_id = r.call_id; output = r.output }

abbrev js_session : SessionMode → Option Bytes
js_session SessionMode.stateless = none
js_session (SessionMode.persistent id) = some id

params-back : (ps : List ToolParam) → map to_proto_tool_param (map js_param ps) ≡ ps
unfolding to_proto_tool_param js_param
params-back [] = refl
params-back (p ∷ ps) = ap (◌∷◌ p) (params-back ps)

tool-back : (t : ToolDef) → to_proto_tool_def (js_tool t) ≡ t
unfolding to_proto_tool_def js_tool
tool-back t = ap (λ ps. record t { parameters = ps }) (params-back t.parameters)

tools-back : (ts : List ToolDef) → map to_proto_tool_def (map js_tool ts) ≡ ts
tools-back [] = refl
tools-back (t ∷ ts) = rw (tool-back t, tools-back ts) refl

results-back : (rs : List ToolResult) → map to_proto_tool_result (map js_result rs) ≡ rs
unfolding to_proto_tool_result js_result
results-back [] = refl
results-back (r ∷ rs) = ap (◌∷◌ r) (results-back rs)

session-back : (s : SessionMode) → session_mode_of (js_session s) ≡ s
session-back SessionMode.stateless = refl
session-back (SessionMode.persistent id) = refl

-- The bits of an f32 that is no NaN, or no number at all.
abbrev pub IsNumber : F32 → Type 0
IsNumber x = (x < 4294967296) × (x % 2147483648 ≤ 2139095040)

abbrev pub IsNumbered : Option F32 → Type 0
IsNumbered none = Unit
IsNumbered (some x) = IsNumber x

-- A request whose u64 is one and whose numbers are no NaNs.
pub record InRange (p : InferenceRequest) : Type 0 where
  pub cache_hash : p.cache_hash < 18446744073709551616
  pub temperature : IsNumbered p.inference_config.temperature
  pub top_p : IsNumbered p.inference_config.top_p
  pub rep_penalty : IsNumbered p.inference_config.rep_penalty
  pub presence_penalty : IsNumbered p.inference_config.presence_penalty

-- JavaScript's f64 of an f32, which is cast back exactly unless it is a NaN, and a BigInt, of which
-- napi reads the low 64 bits.
pub record Handed (napi : Napi) : Type 0 where
  pub as_f64 : F32 → ℕ
  pub as_bigint : ℕ → napi.BigInt
  pub as_f32_f64 : (x : F32) → IsNumber x → napi.as_f32 (as_f64 x) ≡ x
  pub get_u64_bigint : (n : ℕ) → (napi.get_u64 (as_bigint n)).1 ≡ n % 18446744073709551616

module _ (napi : Napi) (handed : Handed napi) where
  option-back :
      (o : Option F32) → IsNumbered o → map_option napi.as_f32 (map_option handed.as_f64 o) ≡ o
  option-back none h = refl
  option-back (some x) h = ap some (handed.as_f32_f64 x h)

  bigint-back : (n : ℕ) → n < 18446744073709551616 → (napi.get_u64 (handed.as_bigint n)).1 ≡ n
  bigint-back n h = let e = handed.get_u64_bigint n in omega (arith, e, h)

  unfoldable pub js_request : Bytes → InferenceRequest → JsRequest napi.BigInt
  unfolding js_tool js_result
  js_request input p = record {
    role = role_name p.role;
    input = input;
    max_tokens = p.max_tokens;
    session_id = js_session p.session;
    cache_hash = some (handed.as_bigint p.cache_hash);
    tools = some (map js_tool p.tools);
    tool_results = some (map js_result p.tool_results);
    tool_mode = some (tool_mode_name p.inference_config.tool_mode);
    temperature = map_option handed.as_f64 p.inference_config.temperature;
    top_p = map_option handed.as_f64 p.inference_config.top_p;
    rep_penalty = map_option handed.as_f64 p.inference_config.rep_penalty;
    presence_penalty = map_option handed.as_f64 p.inference_config.presence_penalty;
    max_tokens_override = p.inference_config.max_tokens;
    system_prompt = p.inference_config.system_prompt;
    json_mode = some (json_mode_name p.inference_config.json_mode);
    disable_think_prefix = some p.inference_config.disable_think_prefix;
    stream_chunk_chars = p.inference_config.stream_chunk_chars;
    stream_thinking = some p.inference_config.stream_thinking;
  }

  -- A request of the protocol with text comes back from its JavaScript shape, but for the two flags of
  -- streaming, which the bindings set, if its hash is a u64 and its numbers are no NaNs.
  pub to_proto_request-js_request :
      (input : Bytes) (p : InferenceRequest)
      → InRange p
      → to_proto_request napi (js_request input p)
        ≡ ok (record p { input = InferenceInput.text input; stream = false; progress = false })
  unfolding js_request request_with
  to_proto_request-js_request input p r =
      let c = p.inference_config in
      accepted napi (js_request input p) p.role c.tool_mode c.json_mode (role_of-role_name p.role)
        (tool_mode_of-tool_mode_name c.tool_mode) (json_mode_of-json_mode_name c.json_mode)
      ∙ rw
          (
            session-back p.session,
            option-back c.temperature r.temperature,
            option-back c.top_p r.top_p,
            option-back c.rep_penalty r.rep_penalty,
            option-back c.presence_penalty r.presence_penalty,
            tools-back p.tools,
            results-back p.tool_results,
            bigint-back p.cache_hash r.cache_hash,
          )
          refl
