-- ===== src/Lenient/Object.antt =====
-- `lenient_parse_object` of gemma_utils/src/json_lenient.rs. A slice whose end lies before its start
-- panics; the other early returns are `None`.
pub mod Panics
pub mod Recovers
use chitin_model_api.Lenient.Comma.{has_top_level_comma}
use chitin_model_api.Lenient.Controls.{escape_string_controls}
use chitin_model_api.Lenient.Keys.{quote_bare_keys}
use chitin_model_api.Lenient.Quotes.{Regexes, un_escape_structural_quotes}
use chitin_model_api.Lenient.Serde.{Serde}
use chitin_model_api.Lenient.Trim.{trim, strip_suffix, starts_with, ends_with, contains, split_once}
use chitin_model_api.Prelude.Lists.{length, take, drop}
use chitin_model_api.Prelude.Result.{Result, ok, err, ◌>>=◌}
use chitin_model_api.Prelude.Tests.{ltb, ◌==◌, if◌then◌else◌}
use chitin_model_api.Prelude.Text.{Bytes, bytes_eq, is_empty, strip_prefix}
use chitin_model_api.Prelude.{
  ℕ, ◌-◌, Bool, true, false, not, ◌&&◌, ◌||◌, Option, none, some, List, [], ◌∷◌,
}

pub data Panic : Type 0 where
  slice_order : Panic

-- `&s[from..to]` within the text.
unfoldable pub slice : ℕ → ℕ → Bytes → Result Panic Bytes
slice from to s = if ltb to from then err slice_order else ok (take (to - from) (drop from s))

-- What stands between the braces.
unfoldable pub inner_of : Bytes → Option Bytes
unfolding trim strip_prefix strip_suffix
inner_of text = elim (strip_prefix (b'{' ∷ []) (trim text)) [
  | none ↦ none
  | some rest ↦ elim (strip_suffix (b'}' ∷ []) rest) [ none ↦ none | some s ↦ some (trim s) ]
]

-- The part before the first colon, and the text behind it.
unfoldable pub key_and_value : Bytes → Option (Bytes × Bytes)
unfolding inner_of split_once trim
key_and_value text = elim (inner_of text) [
  | none ↦ none
  | some inner ↦ elim (split_once b':' inner) [
    | none ↦ none
    | some (front, behind) ↦ some (trim front, trim behind)
  ]
]

-- The key between its quotes, or `none` where the part is not one quoted string.
unfoldable pub quoted_key : Bytes → Result Panic (Option Bytes)
unfolding starts_with ends_with slice contains
quoted_key key_part =
    let key = slice 1 (length key_part - 1) key_part in
    if not (starts_with b'"' key_part) || not (ends_with b'"' key_part)
    then ok none
    else key >>= λ k. ok (if contains (b'"' ∷ []) k then none else some k)

module _ (serde : Serde) (regexes : Regexes) where
  abbrev one_entry : Bytes → serde.Value → serde.Value
  one_entry key v = serde.object (serde.insert key v serde.empty)

  -- The value as it parses, or else as one bare string.
  unfoldable pub value_of : Bytes → Option serde.Value
  unfolding is_empty has_top_level_comma starts_with
  value_of value_raw =
      let bare =
        if has_top_level_comma value_raw
        then none
        else if starts_with b'"' value_raw
        then none
        else some (serde.string value_raw) in
      if is_empty value_raw
      then none
      else elim (serde.from_str value_raw) [ some v ↦ some v | none ↦ bare ]

  pub with_key : Bytes → Option Bytes → Option serde.Value
  unfolding value_of
  with_key value_raw none = none
  with_key value_raw (some key) = elim (value_of value_raw) [
    | none ↦ none
    | some v ↦ some (one_entry key v)
  ]

  -- Step 2, on the text with quoted keys.
  unfoldable pub rescue : Bytes → Result Panic (Option serde.Value)
  unfolding key_and_value quoted_key with_key
  rescue text = elim (key_and_value text) [
    | none ↦ ok none
    | some (key_part, value_raw) ↦ quoted_key key_part >>= λ key. ok (with_key value_raw key)
  ]

  -- Parses a rewritten text, if it was rewritten.
  retry : Bytes → Bytes → Option serde.Value
  unfolding bytes_eq
  retry before after = if bytes_eq after before then none else serde.from_str after

  un_escaped : Bytes → Option serde.Value
  unfolding un_escape_structural_quotes retry
  un_escaped escaped = elim (un_escape_structural_quotes regexes escaped) [
    | none ↦ none
    | some rewritten ↦ retry escaped rewritten
  ]

  -- Steps 1, 1.5 and 1.7: the three texts that are parsed strictly, in turn.
  unfoldable pub strict_attempts : Bytes → Option serde.Value
  unfolding escape_string_controls retry un_escaped
  strict_attempts quoted_keys =
      let escaped = escape_string_controls quoted_keys in
      elim (serde.from_str quoted_keys) [
        | some v ↦ some v
        | none ↦ elim (retry quoted_keys escaped) [ some v ↦ some v | none ↦ un_escaped escaped ]
      ]

  unfoldable pub lenient_parse_object : Bytes → Result Panic (Option serde.Value)
  unfolding quote_bare_keys strict_attempts rescue
  lenient_parse_object raw =
      let quoted_keys = quote_bare_keys raw in
      elim (strict_attempts quoted_keys) [ some v ↦ ok (some v) | none ↦ rescue quoted_keys ]
