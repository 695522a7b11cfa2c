-- ===== src/ToolFormats.antt =====
-- gemma_utils/src/tool_format.rs: the three formats in which models write tool calls. serde_json, the
-- regex crate and Unicode's table of letters and digits are parameters. Only the Gemma 4 format
-- recovers broken JSON, so only it can panic.
pub mod Gemma4
pub mod Named
pub mod ChatMl
use chitin_model_api.Lenient.Object.{Panic, lenient_parse_object}
use chitin_model_api.Lenient.Quotes.{Regexes}
use chitin_model_api.Lenient.Serde.{Serde}
use chitin_model_api.Lenient.Trim.{trim, starts_with, contains, split_once}
use chitin_model_api.Prelude.Lists.{length}
use chitin_model_api.Prelude.Result.{Result, ok, err, ◌>>=◌}
use chitin_model_api.Prelude.Tests.{◌==◌, if◌then◌else◌}
use chitin_model_api.Prelude.Text.{Bytes, codes, bytes_eq, is_empty, strip_prefix, chars}
use chitin_model_api.Prelude.{
  ℕ, zero, suc, ◌-◌, Bool, true, false, not, ◌&&◌, ◌||◌, Option, none, some, List, [], ◌∷◌, ◌++◌,
}

-- `char::is_alphanumeric`, on a character as its bytes.
pub record Unicode : Type 0 where
  pub is_alphanumeric : Bytes → Bool

all_chars : (Bytes → Bool) → List Bytes → Bool
all_chars p [] = true
all_chars p (c ∷ cs) = p c && all_chars p cs

-- `chars().all(|c| c.is_alphanumeric() || c == '_')`.
unfoldable pub is_bare_name : Unicode → Bytes → Bool
unfolding all_chars chars bytes_eq
is_bare_name unicode s =
    all_chars (λ c. unicode.is_alphanumeric c || bytes_eq c (b'_' ∷ [])) (chars s)

-- `str::replace`; the number is how many bytes of an occurrence are still to be passed.
replace_from : ℕ → Bytes → Bytes → Bytes → Bytes
replace_from k needle new [] = []
replace_from (suc k) needle new (b ∷ s) = replace_from k needle new s
replace_from zero needle new (b ∷ s) = elim (strip_prefix needle (b ∷ s)) [
  | none ↦ b ∷ replace_from 0 needle new s
  | some _ ↦ new ++ replace_from (length needle - 1) needle new s
]

abbrev pub leaked_quote : Bytes
leaked_quote = codes "<|\"|>"

unfoldable pub normalized : Bytes → Bytes
unfolding contains replace_from
normalized body =
    if contains leaked_quote body then replace_from 0 leaked_quote (b'"' ∷ []) body else body

-- What stands behind `call:`, or all of it.
unfoldable pub without_call : Bytes → Bytes
unfolding strip_prefix
without_call s = elim (strip_prefix (codes "call:") s) [ none ↦ s | some rest ↦ rest ]

abbrev pub tool_key : Bytes
tool_key = codes "tool"

module _ (serde : Serde) where
  pub record ParsedCall : Type 0 where
    pub name : Bytes
    pub args : serde.Value

  -- The arguments with the tool's name among them.
  abbrev pub named_call : Bytes → serde.Map → ParsedCall
  named_call name args = record {
    name = name;
    args = serde.object (serde.insert tool_key (serde.string name) args);
  }

  -- `Value::get` by a key, and `get(first).or_else(|| get(second)).and_then(as_str)`.
  unfoldable pub get_value : Bytes → serde.Value → Option serde.Value
  get_value key v = elim (serde.as_object v) [ none ↦ none | some m ↦ serde.get key m ]

  unfoldable pub name_under : Bytes → Bytes → serde.Value → Option Bytes
  unfolding get_value
  name_under first second v = elim (get_value first v) [
    | some x ↦ serde.as_str x
    | none ↦ elim (get_value second v) [ some x ↦ serde.as_str x | none ↦ none ]
  ]

  unfoldable pub insert_each : List (Bytes × serde.Value) → serde.Map → serde.Map
  insert_each [] out = out
  insert_each ((k, v) ∷ kvs) out = insert_each kvs (serde.insert k v out)

  module _ (unicode : Unicode) where
    -- `XmlToolFormat::parse_body`, on a body that parses.
    unfoldable pub xml_named : serde.Value → Option Bytes → Option ParsedCall
    xml_named v none = none
    xml_named v (some name) = elim (serde.as_object v) [
      | none ↦ some (record { name = name; args = v })
      | some m ↦ some (named_call name m)
    ]

    unfoldable pub xml_parse_body : Bytes → Option ParsedCall
    unfolding trim starts_with is_bare_name name_under xml_named
    xml_parse_body body =
        let trimmed = trim body in
        let parsed : Option ParsedCall = elim (serde.from_str trimmed) [
          | none ↦ none
          | some v ↦ xml_named v (name_under tool_key (codes "name") v)
        ] in
        if not (starts_with b'{' trimmed) && is_bare_name unicode trimmed
        then some (named_call trimmed serde.empty)
        else parsed

  -- `ChatMLToolFormat::parse_body`. The arguments are inserted behind the name, key by key.
  unfoldable pub chatml_args : Bytes → serde.Value → serde.Map
  unfolding get_value insert_each
  chatml_args name v =
      let out = serde.insert tool_key (serde.string name) serde.empty in
      elim (get_value (codes "arguments") v) [
        | none ↦ out
        | some a ↦ elim (serde.as_object a) [
          | none ↦ out
          | some m ↦ insert_each (serde.entries m) out
        ]
      ]

  unfoldable pub chatml_named : serde.Value → Option Bytes → Option ParsedCall
  unfolding chatml_args
  chatml_named v none = none
  chatml_named v (some name) =
      some (record { name = name; args = serde.object (chatml_args name v) })

  unfoldable pub chatml_parse_body : Bytes → Option ParsedCall
  unfolding trim name_under chatml_named
  chatml_parse_body body = elim (serde.from_str (trim body)) [
    | none ↦ none
    | some v ↦ chatml_named v (name_under (codes "name") tool_key v)
  ]

  module _ (regexes : Regexes) (unicode : Unicode) where
    -- `serde_json::from_str`, and on an error the lenient parser.
    unfoldable pub args_json : Bytes → Result Panic (Option serde.Value)
    unfolding lenient_parse_object
    args_json raw_args = elim (serde.from_str raw_args) [
      | some v ↦ ok (some v)
      | none ↦ lenient_parse_object serde regexes raw_args
    ]

    -- The last steps of `Gemma4ToolFormat::parse_body`: a call without a name is none.
    unfoldable pub gemma4_call : Bytes → serde.Map → Option ParsedCall
    unfolding is_empty
    gemma4_call name args = if is_empty name then none else some (named_call name args)

    pub args_of : Bytes → Option serde.Value → Option ParsedCall
    unfolding gemma4_call
    args_of name none = none
    args_of name (some v) = elim (serde.as_object v) [
      | none ↦ gemma4_call name serde.empty
      | some m ↦ gemma4_call name m
    ]

    unfoldable pub gemma4_stripped : Bytes → Result Panic (Option ParsedCall)
    unfolding split_once trim args_json args_of is_bare_name
    gemma4_stripped stripped = elim (split_once b'{' stripped) [
      | some (front, behind) ↦ args_json (b'{' ∷ behind) >>= λ v. ok (args_of (trim front) v)
      | none ↦ ok (if is_bare_name unicode stripped then gemma4_call stripped serde.empty else none)
    ]

    unfoldable pub gemma4_parse_body : Bytes → Result Panic (Option ParsedCall)
    unfolding normalized trim without_call gemma4_stripped is_empty
    gemma4_parse_body body =
        let stripped = trim (without_call (trim (normalized body))) in
        if is_empty stripped then ok none else gemma4_stripped stripped

-- `format_response` of the XML and ChatML formats, and of Gemma 4's.
unfoldable pub xml_format_response : Bytes → Bytes
xml_format_response response = codes "<tool_response>" ++ (response ++ codes "</tool_response>")

unfoldable pub gemma4_format_response : Bytes → Bytes
gemma4_format_response response = codes "<|tool_response>" ++ (response ++ codes "<tool_response|>")
