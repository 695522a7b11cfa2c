-- ===== src/Tests/Declarations.antt =====
-- The declaration of a tool with two parameters.
use chitin_model_api.Prelude.Text.{codes}
use chitin_model_api.Prelude.{true, false, List, [], ◌∷◌}
use chitin_model_api.Proto.{ToolDef, ToolParam}
use chitin_model_api.Tests.Json.{Value, text}

abbrev key : ToolParam
key = record {
  name = codes "key";
  param_type = codes "STR";
  required = true;
  description = codes "Identifier";
}

abbrev value : ToolParam
value = record {
  name = codes "value";
  param_type = codes "any";
  required = false;
  description = [];
}

abbrev remember : ToolDef
remember = record {
  name = codes "remember";
  description = codes "Store a memory.";
  parameters = key ∷ value ∷ [];
}

-- The first value of an array, which is all that the test keeps of it.
abbrev array : List Value → Value
array [] = text []
array (v ∷ vs) = v
