-- ===== src/Tests/Formats.antt =====
-- The tool formats at concrete bodies.
use chitin_model_api.Lenient.Chars.{is_whitespace, starts_ident, is_ident}
use chitin_model_api.Lenient.Keys.Documents.{
  before_colon, string, no_fields, field, Fields, IsJson, write,
}
use chitin_model_api.Lenient.Keys.Scan.{plain, body}
use chitin_model_api.Lenient.Trim.{trim, contains}
use chitin_model_api.Prelude.Result.{ok}
use chitin_model_api.Prelude.Text.{codes, bytes_eq}
use chitin_model_api.Prelude.{◌≡◌, ◌≢◌, refl, [], ◌∷◌, some, arith}
use chitin_model_api.Tests.Json.{
  json, laws, no_matches, no_letters, Value, text, table, entry, nothing, a_is_b, chatml_text,
}
use chitin_model_api.ToolFormats.ChatMl.{last_under, argument_entries, chatml_parse_body-Tool}
use chitin_model_api.ToolFormats.Gemma4.{gemma4_parse_body-write}
use chitin_model_api.ToolFormats.Named.{gemma4_parse_body-IsNamed}
use chitin_model_api.ToolFormats.{
  ParsedCall, named_call, name_under, get_value, tool_key, gemma4_parse_body, chatml_parse_body,
}

-- `{a:"b"}`.
abbrev fields : Fields
fields = field [] (before_colon b'a' [] []) [] (string (plain b'b' ∷ [])) no_fields

gemma4_parse_body-write_example :
    gemma4_parse_body json no_matches no_letters (codes "call:find{a:\"b\"}")
    ≡ ok (some (named_call json (codes "find") a_is_b))
unfolding write body IsJson starts_ident is_ident is_whitespace contains bytes_eq
gemma4_parse_body-write_example =
    gemma4_parse_body-write json no_matches no_letters b'f' (codes "ind") fields (table a_is_b)
      a_is_b (refl, (refl, (refl, (refl, tt))))
      (tt, (refl, tt, tt), tt, ((omega arith, refl), tt), tt) refl refl refl refl

gemma4_parse_body-IsNamed_example :
    (codes "find" ≢ [])
    × (get_value json tool_key (table (entry tool_key (text (codes "find")) a_is_b))
        ≡ some (text (codes "find")))
unfolding gemma4_parse_body is_ident
gemma4_parse_body-IsNamed_example =
    gemma4_parse_body-IsNamed json laws no_matches no_letters (codes "call:find{a:\"b\"}")
      (named_call json (codes "find") a_is_b) refl

-- The call of `f` whose arguments say `g`.
abbrev called_f : ParsedCall json
called_f = record {
  name = codes "f";
  args = table (entry tool_key (text (codes "g")) (entry tool_key (text (codes "f")) nothing));
}

chatml_parse_body-Tool_example :
    (v : Value) × (json.from_str (trim chatml_text) ≡ some v)
    × (name_under json (codes "name") tool_key v ≡ some (codes "f"))
    × (get_value json tool_key called_f.args
        ≡ some (last_under json laws tool_key (text (codes "f")) (argument_entries json laws v)))
unfolding chatml_parse_body bytes_eq
chatml_parse_body-Tool_example = chatml_parse_body-Tool json laws chatml_text called_f refl

-- Under `tool` the arguments hold another name than the call's.
renamed : get_value json tool_key called_f.args ≡ some (text (codes "g"))
unfolding get_value bytes_eq
renamed = refl
