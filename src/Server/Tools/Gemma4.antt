-- ===== src/Server/Tools/Gemma4.antt =====
-- The Gemma 4 format of gemma_utils/src/tool_format.rs as model_api_server/src/tool_text.rs asks it:
-- the body of a call, and its arguments printed without the `tool` key.
use chitin_model_api.Lenient.Quotes.{Regexes}
use chitin_model_api.Lenient.Serde.{Serde}
use chitin_model_api.Prelude.Result.{ok, ◌>>=◌}
use chitin_model_api.Prelude.Text.{Bytes, codes}
use chitin_model_api.Prelude.{Option, none, some}
use chitin_model_api.Server.Tools.{ToolFormat}
use chitin_model_api.ToolFormats.{
  Unicode, ParsedCall, tool_key, gemma4_parse_body, gemma4_format_response,
}

module _ (serde : Serde) (remove : Bytes → serde.Map → serde.Map)
    (to_string : serde.Value → Option Bytes) where
  -- The arguments for the wire.
  unfoldable pub args_json : serde.Value → Bytes
  args_json args =
      let stripped : serde.Value = elim (serde.as_object args) [
        | none ↦ args
        | some m ↦ serde.object (remove tool_key m)
      ] in
      elim (to_string stripped) [ none ↦ codes "{}" | some s ↦ s ]

  wire_call : Option (ParsedCall serde) → Option (Bytes × Bytes)
  unfolding args_json
  wire_call none = none
  wire_call (some call) = some (call.name, args_json call.args)

  unfoldable pub gemma4_tools : Regexes → Unicode → ToolFormat
  unfolding wire_call gemma4_parse_body gemma4_format_response
  gemma4_tools regexes unicode = record {
    open_marker = codes "<|tool_call>";
    close_marker = codes "<tool_call|>";
    parse_body = λ body. gemma4_parse_body serde regexes unicode body >>= λ p. ok (wire_call p);
    format_response = gemma4_format_response;
  }
