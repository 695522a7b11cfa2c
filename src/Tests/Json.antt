-- ===== src/Tests/Json.antt =====
-- A small JSON library for the tests: it reads the texts of a table, and a map is a list of entries
-- whose first one counts.
use chitin_model_api.Lenient.Quotes.{Regexes}
use chitin_model_api.Lenient.Serde.{Serde}
use chitin_model_api.Prelude.Tests.{if◌then◌else◌}
use chitin_model_api.Prelude.Text.{Bytes, codes, bytes_eq, bytes_eq_iff}
use chitin_model_api.Prelude.{refl, false, List, [], ◌∷◌, Option, none, some}
use chitin_model_api.ToolFormats.Named.{SerdeLaws}
use chitin_model_api.ToolFormats.{Unicode}

mutual
  pub data Value : Type 0 where
    text : Bytes → Value
    table : Entries → Value

  pub data Entries : Type 0 where
    nothing : Entries
    entry : Bytes → Value → Entries → Entries

abbrev pub get : Bytes → Entries → Option Value
get k nothing = none
get k (entry l v m) = if bytes_eq l k then some v else get k m

abbrev pub as_str : Value → Option Bytes
as_str (text s) = some s
as_str (table m) = none

abbrev pub as_object : Value → Option Entries
as_object (text s) = none
as_object (table m) = some m

abbrev pub pairs : Entries → List (Bytes × Value)
pairs nothing = []
pairs (entry k v m) = (k, v) ∷ pairs m

abbrev pub lookup : List (Bytes × Value) → Bytes → Option Value
lookup [] s = none
lookup ((t, v) ∷ ts) s = if bytes_eq s t then some v else lookup ts s

abbrev pub a_is_b : Entries
a_is_b = entry (codes "a") (text (codes "b")) nothing

-- A call in the form of ChatML whose arguments name another tool.
abbrev pub call_of_f : Entries
call_of_f =
    entry (codes "name") (text (codes "f"))
      (entry (codes "arguments") (table (entry (codes "tool") (text (codes "g")) nothing)) nothing)

abbrev pub chatml_text : Bytes
chatml_text = codes "{\"name\":\"f\",\"arguments\":{\"tool\":\"g\"}}"

abbrev pub texts : List (Bytes × Value)
texts = (codes "{\"a\":\"b\"}", table a_is_b) ∷ (chatml_text, table call_of_f) ∷ []

abbrev pub json : Serde
json = record {
  Value = Value;
  Map = Entries;
  from_str = lookup texts;
  string = text;
  object = table;
  as_str = as_str;
  as_object = as_object;
  empty = nothing;
  insert = entry;
  get = get;
  entries = pairs;
}

pub laws : SerdeLaws json
laws = record {
  as_object_object = λ m. refl;
  get_insert = λ k v m. rw ((bytes_eq_iff k k).1 refl) refl;
  get_insert_other = λ k l v m h. rw h refl;
}

abbrev pub no_matches : Regexes
no_matches = record {
  structural_kv_pair = λ raw. [];
  structural_value_close_then_key = λ raw. [];
  structural_value_close = λ raw. [];
}

abbrev pub no_letters : Unicode
no_letters = record { is_alphanumeric = λ c. false }
