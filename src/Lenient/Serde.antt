-- ===== src/Lenient/Serde.antt =====
-- What gemma_utils/src/json_lenient.rs and gemma_utils/src/tool_format.rs use of serde_json: its
-- values and maps, and `from_str` into a value. A map is only asked for the value under a key, for an
-- insertion, and for its entries in order.
use chitin_model_api.Prelude.Text.{Bytes}
use chitin_model_api.Prelude.{Option, List}

pub record Serde : Type 1 where
  pub Value : Type 0
  pub Map : Type 0
  pub from_str : Bytes → Option Value
  pub string : Bytes → Value
  pub object : Map → Value
  pub as_str : Value → Option Bytes
  pub as_object : Value → Option Map
  pub empty : Map
  pub insert : Bytes → Value → Map → Map
  pub get : Bytes → Map → Option Value
  pub entries : Map → List (Bytes × Value)
