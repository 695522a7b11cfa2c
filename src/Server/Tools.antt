-- ===== src/Server/Tools.antt =====
-- model_api_server/src/tool_text.rs: tool results put into a prompt, and tool calls taken out of a
-- response. A `ToolFormat` is its four methods; what `parse_body` gives is the name and the printed
-- arguments without the `tool` key, or its panic, which ends the search. Server/Tools/Gemma4 makes one
-- of the Gemma 4 format.
pub mod Calls
pub mod Gemma4
use chitin_model_api.Lenient.Object.{Panic}
use chitin_model_api.Prelude.Lists.{length}
use chitin_model_api.Prelude.Result.{Result, ok, err}
use chitin_model_api.Prelude.Tests.{if◌then◌else◌}
use chitin_model_api.Prelude.Text.{Bytes, codes, decimal, is_empty, strip_prefix}
use chitin_model_api.Prelude.{
  ℕ, zero, suc, ◌+◌, Bool, true, false, ◌||◌, List, [], ◌∷◌, ◌++◌, Option, none, some,
}
use chitin_model_api.Proto.{tool, Turn, ToolCall, ToolResult}

pub record ToolFormat : Type 0 where
  pub open_marker : Bytes
  pub close_marker : Bytes
  pub parse_body : Bytes → Result Panic (Option (Bytes × Bytes))
  pub format_response : Bytes → Bytes

unfoldable pub format_tool_result_text : ToolFormat → ToolResult → Bytes
format_tool_result_text fmt r = fmt.format_response r.output

unfoldable pub tool_results_to_turns : ToolFormat → List ToolResult → List Turn
unfolding format_tool_result_text
tool_results_to_turns fmt [] = []
tool_results_to_turns fmt (r ∷ rs) =
    record { role = tool; content = format_tool_result_text fmt r; tool_call_id = some r.call_id }
    ∷ tool_results_to_turns fmt rs

unfoldable pub prepend_tool_results_to_text : ToolFormat → Bytes → List ToolResult → Bytes
unfolding format_tool_result_text
prepend_tool_results_to_text fmt user_text [] = user_text
prepend_tool_results_to_text fmt user_text (r ∷ rs) =
    format_tool_result_text fmt r ++ (10 ∷ prepend_tool_results_to_text fmt user_text rs)

before_first : ℕ → Option (Bytes × Bytes) → Option (Bytes × Bytes)
before_first c none = none
before_first c (some (front, rest)) = some (c ∷ front, rest)

-- `str::find`: what stands before and behind the first occurrence.
unfoldable pub find_marker : Bytes → Bytes → Option (Bytes × Bytes)
unfolding before_first
find_marker marker [] = elim (strip_prefix marker []) [ none ↦ none | some rest ↦ some ([], rest) ]
find_marker marker (c ∷ s) =
    let later = find_marker marker s in
    elim (strip_prefix marker (c ∷ s)) [ none ↦ before_first c later | some rest ↦ some ([], rest) ]

unfoldable pub call_id : ℕ → Bytes
call_id n = codes "tc-" ++ decimal n

module _ (fmt : ToolFormat) where
  -- What the body of one marker pair adds to the calls so far.
  unfoldable pub add_call : List ToolCall → Option (Bytes × Bytes) → List ToolCall
  unfolding call_id
  add_call calls none = calls
  add_call calls (some (name, args)) =
      calls ++ (record { id = call_id (length calls); name = name; arguments_json = args } ∷ [])

  -- The calls, or the panic of `parse_body`; `none` means that the fuel ran out.
  abbrev pub Searched : Type 0
  Searched = Option (Result Panic (List ToolCall))

  parsed_body :
      (List ToolCall → Bytes → Searched)
      → List ToolCall
      → Bytes
      → Result Panic (Option (Bytes × Bytes))
      → Searched
  unfolding add_call
  parsed_body again calls rest (err p) = some (err p)
  parsed_body again calls rest (ok parsed) = again (add_call calls parsed) rest

  at_body : (List ToolCall → Bytes → Searched) → List ToolCall → Option (Bytes × Bytes) → Searched
  unfolding parsed_body
  at_body again calls none = some (ok calls)
  at_body again calls (some (body, rest)) = parsed_body again calls rest (fmt.parse_body body)

  at_open : (List ToolCall → Bytes → Searched) → List ToolCall → Option (Bytes × Bytes) → Searched
  unfolding at_body find_marker
  at_open again calls none = some (ok calls)
  at_open again calls (some (_, behind)) = at_body again calls (find_marker fmt.close_marker behind)

  -- Each round takes an opening marker, which is not empty; the fuel is one more than the bytes.
  unfoldable pub scan_calls : ℕ → List ToolCall → Bytes → Searched
  unfolding find_marker at_open
  scan_calls zero calls t = none
  scan_calls (suc fuel) calls t = at_open (scan_calls fuel) calls (find_marker fmt.open_marker t)

  unfoldable pub extract_tool_calls : Bytes → Searched
  unfolding scan_calls
  extract_tool_calls t =
      if is_empty fmt.open_marker || is_empty fmt.close_marker
      then some (ok [])
      else scan_calls (suc (length t)) [] t
