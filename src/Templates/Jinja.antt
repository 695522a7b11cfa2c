-- ===== src/Templates/Jinja.antt =====
-- chitin_llama/src/jinja_chat.rs: the variables of a model file's own chat template. serde_json and
-- minijinja are parameters; what an error displays is its text.
pub mod Words
pub mod Declared
use chitin_model_api.Lenient.Serde.{Serde}
use chitin_model_api.Prelude.Result.{Result, ok, err, ◌>>=◌, map_err}
use chitin_model_api.Prelude.Tests.{if◌then◌else◌}
use chitin_model_api.Prelude.Text.{Bytes, codes, bytes_eq, is_empty, lowercase}
use chitin_model_api.Prelude.{Bool, true, false, List, [], ◌∷◌, ◌++◌, map}
use chitin_model_api.Proto.{ToolDef, ToolParam}

pub record ChatMsg : Type 0 where
  pub role : Bytes
  pub content : Bytes

abbrev pub msg_system : Bytes → ChatMsg
msg_system content = record { role = codes "system"; content = content }

abbrev pub msg_user : Bytes → ChatMsg
msg_user content = record { role = codes "user"; content = content }

abbrev pub msg_assistant : Bytes → ChatMsg
msg_assistant content = record { role = codes "assistant"; content = content }

-- `context!` of `render_chat`.
pub record Context (V : Type 0) : Type 0 where
  pub messages : List V
  pub tools : List V
  pub add_generation_prompt : Bool
  pub enable_thinking : Bool

pub record MiniJinja (Value : Type 0) : Type 1 where
  pub V : Type 0
  pub Environment : Type 0
  pub Template : Type 0
  pub from_serialize : Value → V
  pub new : Environment
  pub add_template : Bytes → Bytes → Environment → Result Bytes Environment
  pub get_template : Bytes → Environment → Result Bytes Template
  pub render : Template → Context V → Result Bytes Bytes

unfoldable pub one_of : Bytes → List Bytes → Bool
unfolding bytes_eq
one_of w [] = false
one_of w (x ∷ xs) = let rest = one_of w xs in if bytes_eq w x then true else rest

-- The `match` of `json_schema_type` on the word in lower case.
unfoldable pub word_of : Bytes → Bytes
unfolding one_of
word_of w =
    if one_of w (codes "str" ∷ codes "string" ∷ [])
    then codes "string"
    else if one_of w (codes "int" ∷ codes "integer" ∷ [])
    then codes "integer"
    else if one_of w (codes "num" ∷ codes "number" ∷ codes "float" ∷ [])
    then codes "number"
    else if one_of w (codes "bool" ∷ codes "boolean" ∷ [])
    then codes "boolean"
    else if one_of w (codes "arr" ∷ codes "array" ∷ codes "list" ∷ [])
    then codes "array"
    else if one_of w (codes "obj" ∷ codes "object" ∷ codes "dict" ∷ codes "map" ∷ [])
    then codes "object"
    else w

unfoldable pub json_schema_type : Bytes → Bytes
unfolding word_of lowercase
json_schema_type raw = word_of (lowercase raw)

module _ (serde : Serde) (array : List serde.Value → serde.Value) where
  -- An object of `json!`.
  unfoldable pub inserted : List (Bytes × serde.Value) → serde.Map → serde.Map
  inserted [] m = m
  inserted ((k, v) ∷ es) m = inserted es (serde.insert k v m)

  unfoldable pub json : List (Bytes × serde.Value) → serde.Value
  unfolding inserted
  json es = serde.object (inserted es serde.empty)

  -- `prop` of the loop of `tool_to_openai_function`.
  unfoldable pub prop : ToolParam → serde.Map
  unfolding json_schema_type is_empty
  prop p =
      let typed =
        serde.insert (codes "type") (serde.string (json_schema_type p.param_type)) serde.empty in
      if is_empty p.description
      then typed
      else serde.insert (codes "description") (serde.string p.description) typed

  -- The loop, from the properties and the required names so far.
  unfoldable pub declare_each :
      List ToolParam → serde.Map → List serde.Value → serde.Map × List serde.Value
  unfolding prop
  declare_each [] properties required = (properties, required)
  declare_each (p ∷ ps) properties required =
      declare_each ps (serde.insert p.name (serde.object (prop p)) properties)
        (if p.required then required ++ (serde.string p.name ∷ []) else required)

  unfoldable pub parameters_of : serde.Map × List serde.Value → serde.Value
  unfolding json
  parameters_of (properties, required) = json (
      (codes "type", serde.string (codes "object"))
      ∷ (codes "properties", serde.object properties)
      ∷ (codes "required", array required)
      ∷ [])

  unfoldable pub tool_to_openai_function : ToolDef → serde.Value
  unfolding declare_each parameters_of
  tool_to_openai_function def = json (
      (codes "type", serde.string (codes "function"))
      ∷ (
        codes "function",
        json (
            (codes "name", serde.string def.name)
            ∷ (codes "description", serde.string def.description)
            ∷ (codes "parameters", parameters_of (declare_each def.parameters serde.empty []))
            ∷ []),
      )
      ∷ [])

  message_json : ChatMsg → serde.Value
  unfolding json
  message_json m =
      json ((codes "role", serde.string m.role) ∷ (codes "content", serde.string m.content) ∷ [])

  unfoldable pub render_chat :
      (jinja : MiniJinja serde.Value)
      → Bytes
      → List ChatMsg
      → List ToolDef
      → Bool
      → Bool
      → Result Bytes Bytes
  unfolding message_json tool_to_openai_function
  render_chat jinja template messages tools add_generation_prompt enable_thinking =
      map_err (λ e. codes "jinja parse: " ++ e)
        (jinja.add_template (codes "chat") template jinja.new)
      >>= λ env.
          map_err (λ e. codes "jinja get_template: " ++ e) (jinja.get_template (codes "chat") env)
          >>= λ tmpl.
              map_err (λ e. codes "jinja render: " ++ e)
                (jinja.render tmpl (record {
                  messages = map (λ m. jinja.from_serialize (message_json m)) messages;
                  tools = map (λ t. jinja.from_serialize (tool_to_openai_function t)) tools;
                  add_generation_prompt = add_generation_prompt;
                  enable_thinking = enable_thinking;
                }))
