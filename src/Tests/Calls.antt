-- ===== src/Tests/Calls.antt =====
-- Tool calls and requests to the llama slot at concrete inputs.
use chitin_model_api.Lenient.Object.{Panic}
use chitin_model_api.Llama.Slot.{Vocabulary}
use chitin_model_api.Prelude.Result.{Result, ok}
use chitin_model_api.Prelude.Text.{Bytes, codes}
use chitin_model_api.Prelude.{◌≡◌, List, some}
use chitin_model_api.Proto.{ToolCall}
use chitin_model_api.Server.Tools.Calls.{Outcome, extract_tool_calls-Numbered}
use chitin_model_api.Server.Tools.Gemma4.{gemma4_tools}
use chitin_model_api.Server.Tools.{ToolFormat, extract_tool_calls}
use chitin_model_api.Tests.Json.{json, no_matches, no_letters}

-- Gemma 4's format; no argument is removed, and every value is printed alike.
abbrev gemma4 : ToolFormat
gemma4 = gemma4_tools json (λ k m. m) (λ v. some (codes "{}")) no_matches no_letters

-- A call, and one whose key is a lone quote.
abbrev reply : Bytes
reply = codes "<|tool_call>call:f{\"a\":\"b\"}<tool_call|> and <|tool_call>call:x{\":y}<tool_call|>"

extract_tool_calls-Numbered_example :
    (r : Result Panic (List ToolCall)) × (extract_tool_calls gemma4 reply ≡ some r)
    × Outcome gemma4 reply r
extract_tool_calls-Numbered_example = extract_tool_calls-Numbered gemma4 reply

abbrev words : Vocabulary
words = record { tokenize = λ b. ok b; detokenize = λ ts. ts }
