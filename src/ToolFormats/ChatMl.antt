-- ===== src/ToolFormats/ChatMl.antt =====
-- What a call of the ChatML format holds under the key of the tool.
use chitin_model_api.Lenient.Serde.{Serde}
use chitin_model_api.Lenient.Trim.{trim}
use chitin_model_api.Prelude.Tests.{if◌then◌else◌, Bool-cases, Option-cases}
use chitin_model_api.Prelude.Text.{Bytes, codes, bytes_eq, bytes_eq_iff}
use chitin_model_api.Prelude.{◌≡◌, ◌∙◌, inl, inr, none, some, List, [], ◌∷◌}
use chitin_model_api.ToolFormats.{
  tool_key, ParsedCall, get_value, name_under, insert_each, chatml_args, chatml_named,
  chatml_parse_body,
}
use chitin_model_api.ToolFormats.Named.{SerdeLaws}

module _ (serde : Serde) (laws : SerdeLaws serde) where
  -- What a list of entries leaves under a key that held something before.
  abbrev pub last_under : Bytes → serde.Value → List (Bytes × serde.Value) → serde.Value
  last_under key held [] = held
  last_under key held ((k, v) ∷ kvs) = last_under key (if bytes_eq k key then v else held) kvs

  insert_each-get :
      (key : Bytes) (held : serde.Value) (kvs : List (Bytes × serde.Value)) (m : serde.Map)
      → serde.get key m ≡ some held
      → serde.get key (insert_each serde kvs m) ≡ some (last_under key held kvs)
  unfolding insert_each
  insert_each-get key held [] m h = h
  insert_each-get key held ((k, v) ∷ kvs) m h = elim (Bool-cases (bytes_eq k key)) [
    | inl e ↦
        let same : k ≡ key = (bytes_eq_iff k key).0 e in
        rw e (insert_each-get key v kvs (serde.insert k v m) (rw same (laws.get_insert key v m)))
    | inr e ↦
        rw e (
          insert_each-get key held kvs (serde.insert k v m) (laws.get_insert_other key k v m e ∙ h))
  ]

  -- The entries of the value's `arguments`, if that is an object.
  abbrev pub argument_entries : serde.Value → List (Bytes × serde.Value)
  argument_entries v = elim (get_value serde (codes "arguments") v) [
    | none ↦ []
    | some a ↦ elim (serde.as_object a) [ none ↦ [] | some m ↦ serde.entries m ]
  ]

  chatml_args-get :
      (name : Bytes) (v : serde.Value)
      → serde.get tool_key (chatml_args serde name v)
        ≡ some (last_under tool_key (serde.string name) (argument_entries v))
  unfolding chatml_args insert_each
  chatml_args-get name v =
      let out = serde.insert tool_key (serde.string name) serde.empty in
      let held = laws.get_insert tool_key (serde.string name) serde.empty in
      elim (Option-cases (get_value serde (codes "arguments") v)) [
        | inl e ↦ rw (e, chatml_args, argument_entries) held
        | inr (a, e) ↦ elim (Option-cases (serde.as_object a)) [
          | inl f ↦ rw (e, f, chatml_args, argument_entries) held
          | inr (m, f) ↦
              rw (e, f, chatml_args, argument_entries)
                (insert_each-get tool_key (serde.string name) (serde.entries m) out held)
        ]
      ]

  abbrev Told : serde.Value → ParsedCall serde → Type 0
  Told v call =
      (name_under serde (codes "name") tool_key v ≡ some call.name)
      × (get_value serde tool_key call.args
          ≡ some (last_under tool_key (serde.string call.name) (argument_entries v)))

  same_call-Told : (v : serde.Value) (c d : ParsedCall serde) → c ≡ d → Told v c → Told v d
  same_call-Told v c d e told = rw e at told

  chatml_named-Told :
      (v : serde.Value) (name : Bytes)
      → name_under serde (codes "name") tool_key v ≡ some name
      → Told v (record { name = name; args = serde.object (chatml_args serde name v) })
  unfolding get_value
  chatml_named-Told v name g =
      (g, rw (laws.as_object_object (chatml_args serde name v), get_value) (chatml_args-get name v))

  -- The ChatML format parses a call only from a value that names it, and what the call's arguments
  -- hold under `tool` is the name, unless the value's own arguments have that key: then the last of
  -- those.
  pub chatml_parse_body-Tool :
      (body : Bytes) (call : ParsedCall serde)
      → chatml_parse_body serde body ≡ some call
      → (v : serde.Value) × (serde.from_str (trim body) ≡ some v)
        × (name_under serde (codes "name") tool_key v ≡ some call.name)
        × (get_value serde tool_key call.args
            ≡ some (last_under tool_key (serde.string call.name) (argument_entries v)))
  unfolding chatml_parse_body chatml_named
  chatml_parse_body-Tool body call e = elim (Option-cases (serde.from_str (trim body))) [
    | inl f ↦ absurd (cc (rw (f, chatml_parse_body) at e))
    | inr (v, f) ↦ elim (Option-cases (name_under serde (codes "name") tool_key v)) [
      | inl g ↦ absurd (cc (rw (f, g, chatml_parse_body) at e))
      | inr (name, g) ↦
          let made : ParsedCall serde = record {
            name = name;
            args = serde.object (chatml_args serde name v);
          } in
          let i : made ≡ call = cc (rw (f, g, chatml_parse_body) at e) in
          let (n, t) = same_call-Told v made call i (chatml_named-Told v name g) in (v, f, n, t)
    ]
  ]
