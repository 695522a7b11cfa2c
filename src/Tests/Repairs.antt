-- ===== src/Tests/Repairs.antt =====
-- The passes of the JSON recovery at concrete texts.
use chitin_model_api.Lenient.Chars.{is_whitespace, starts_ident, is_ident}
use chitin_model_api.Lenient.Comma.Found.{has_top_level_comma_iff}
use chitin_model_api.Lenient.Comma.Pieces.{TopLevelComma}
use chitin_model_api.Lenient.Comma.{has_top_level_comma}
use chitin_model_api.Lenient.Controls.Clean.{strings_are_clean, escape_string_controls-clean}
use chitin_model_api.Lenient.Controls.Same.{IsAscii, escape_string_controls-same_iff}
use chitin_model_api.Lenient.Controls.{escape_string_controls}
use chitin_model_api.Lenient.Keys.Documents.{
  in_quotes, before_colon, before_equals, word, string, array, object, no_items, item, no_fields,
  field, write, Json, IsJson,
}
use chitin_model_api.Lenient.Keys.Repairs.{quote_bare_keys-write}
use chitin_model_api.Lenient.Keys.Scan.{plain, body}
use chitin_model_api.Lenient.Keys.{quote_bare_keys}
use chitin_model_api.Lenient.Object.Panics.{LoneQuote, lenient_parse_object-panics_iff}
use chitin_model_api.Lenient.Object.{slice_order, strict_attempts, lenient_parse_object}
use chitin_model_api.Lenient.Quotes.Drops.{Drops, un_escape_structural_quotes-Drops}
use chitin_model_api.Lenient.Quotes.{Regexes, un_escape_structural_quotes}
use chitin_model_api.Prelude.Result.{err}
use chitin_model_api.Prelude.Text.{Bytes, codes}
use chitin_model_api.Prelude.{◌≡◌, ◌≢◌, refl, ◌↔◌, arith, true, [], ◌∷◌, none}
use chitin_model_api.Tests.Json.{json, no_matches}

-- `{a:[true,x], "b" = ...}` in the loose style: a bare key before each separator and a quoted one.
abbrev sample : Json
sample = object (
    field [] (before_colon b'a' [] []) [] (array (item [] (word b't' []) no_items)) (
      field (32 ∷ []) (before_equals b'b' (b'2' ∷ []) (32 ∷ [])) [] (string (plain b'x' ∷ []))
        (field [] (in_quotes (plain b'c' ∷ []) []) [] (word b'n' []) no_fields)))

sample-IsJson : IsJson sample
unfolding IsJson starts_ident is_ident is_whitespace
sample-IsJson = (
  tt,
  (refl, tt, tt),
  tt,
  (tt, (refl, tt), tt),
  (
    (refl, tt),
    (refl, (refl, tt), (refl, tt)),
    tt,
    ((omega arith, refl), tt),
    (tt, (((omega arith, refl), tt), tt), tt, (refl, tt), tt),
  ),
)

quote_bare_keys-write_example :
    quote_bare_keys (codes "{a:[t], b2 =\"x\",\"c\":n}")
    ≡ codes "{\"a\":[t], \"b2\" :\"x\",\"c\":n}"
unfolding write body
quote_bare_keys-write_example = quote_bare_keys-write sample sample-IsJson

-- A string with a line break and a lone backslash.
abbrev broken : Bytes
broken = b'"' ∷ b'a' ∷ b'\n' ∷ b'\\' ∷ b'w' ∷ b'"' ∷ []

broken_escaped : escape_string_controls broken ≡ codes "\"a\\n\\\\w\""
unfolding escape_string_controls
broken_escaped = refl

escape_string_controls-clean_example : strings_are_clean (escape_string_controls broken) ≡ true
escape_string_controls-clean_example = escape_string_controls-clean broken

-- The letter é in a string: its two bytes become four.
abbrev accented : Bytes
accented = b'"' ∷ 195 ∷ 169 ∷ b'"' ∷ []

accented_spoiled : escape_string_controls accented ≡ b'"' ∷ 195 ∷ 131 ∷ 194 ∷ 169 ∷ b'"' ∷ []
unfolding escape_string_controls
accented_spoiled = refl

escape_string_controls-same_iff_example :
    (escape_string_controls accented ≡ accented)
    ↔ (IsAscii accented × (strings_are_clean accented ≡ true))
escape_string_controls-same_iff_example = escape_string_controls-same_iff accented

has_top_level_comma_iff_example :
    (has_top_level_comma (codes "[1,2] \",\" x, y") ≡ true)
    ↔ TopLevelComma (codes "[1,2] \",\" x, y")
has_top_level_comma_iff_example = has_top_level_comma_iff (codes "[1,2] \",\" x, y") (omega arith)

-- A closing quote that was escaped, as the third expression finds it.
abbrev overescaped : Bytes
overescaped = codes "{\"a\":\"b\\\"}"

abbrev closers : Regexes
closers = record no_matches {
  structural_value_close = λ raw. record { start = 7; text = codes "\\\"}" } ∷ [];
}

un_escape_structural_quotes-Drops_example :
    Drops overescaped (codes "{\"a\":\"b\"}") × (codes "{\"a\":\"b\"}" ≢ overescaped)
unfolding un_escape_structural_quotes
un_escape_structural_quotes-Drops_example =
    un_escape_structural_quotes-Drops closers overescaped (codes "{\"a\":\"b\"}") tt tt
      (([], refl), tt) refl

lone_quote_panics : lenient_parse_object json no_matches (codes "{\":x}") ≡ err slice_order
unfolding lenient_parse_object
lone_quote_panics = refl

lenient_parse_object-panics_iff_example :
    (lenient_parse_object json no_matches (codes "{\":x}") ≡ err slice_order) ↔ (
      (strict_attempts json no_matches (quote_bare_keys (codes "{\":x}")) ≡ none)
      × LoneQuote (quote_bare_keys (codes "{\":x}")))
lenient_parse_object-panics_iff_example =
    lenient_parse_object-panics_iff json no_matches (codes "{\":x}")
