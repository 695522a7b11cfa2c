-- ===== src/Templates/Jinja/Declared.antt =====
-- What the declaration of a tool holds of its parameters.
use chitin_model_api.Lenient.Serde.{Serde}
use chitin_model_api.Prelude.Tests.{if◌then◌else◌}
use chitin_model_api.Prelude.Text.{Bytes}
use chitin_model_api.Prelude.{List, [], ◌∷◌, Option, none, some}
use chitin_model_api.Proto.{ToolParam}

-- The names of the required parameters, in order.
unfoldable pub required_names : List ToolParam → List Bytes
required_names [] = []
required_names (p ∷ ps) = let rest = required_names ps in if p.required then p.name ∷ rest else rest

module _ (serde : Serde) (array : List serde.Value → serde.Value) where
  abbrev pub strings : List Bytes → List serde.Value
  strings [] = []
  strings (n ∷ ns) = serde.string n ∷ strings ns

  -- The value behind the keys of nested objects.
  unfoldable pub at_path : List Bytes → serde.Value → Option serde.Value
  at_path [] v = some v
  at_path (k ∷ ks) v = elim (serde.as_object v) [
    | none ↦ none
    | some m ↦ elim (serde.get k m) [ none ↦ none | some w ↦ at_path ks w ]
  ]
