-- ===== src/ToolFormats/Named.antt =====
-- Under which name the arguments of a parsed call hold the tool.
use chitin_model_api.Lenient.Quotes.{Regexes}
use chitin_model_api.Lenient.Serde.{Serde}
use chitin_model_api.Lenient.Trim.{trim, starts_with, split_once}
use chitin_model_api.Prelude.Result.{ok, bind_succeeds}
use chitin_model_api.Prelude.Tests.{Bool-cases, Option-cases}
use chitin_model_api.Prelude.Text.{Bytes, codes, bytes_eq, is_empty}
use chitin_model_api.Prelude.{◌≡◌, ◌≢◌, inl, inr, false, not, ◌&&◌, Option, none, some, [], ◌∷◌}
use chitin_model_api.ToolFormats.{
  Unicode, tool_key, ParsedCall, named_call, get_value, name_under, is_bare_name, without_call,
  normalized, xml_named, xml_parse_body, args_json, gemma4_call, args_of, gemma4_stripped,
  gemma4_parse_body,
}

-- What serde_json's maps promise: an object gives its map back, and an insertion is found under its
-- key and under no other.
pub record SerdeLaws (serde : Serde) : Type 0 where
  pub as_object_object : (m : serde.Map) → serde.as_object (serde.object m) ≡ some m
  pub get_insert :
      (k : Bytes) (v : serde.Value) (m : serde.Map) → serde.get k (serde.insert k v m) ≡ some v
  pub get_insert_other :
      (k l : Bytes) (v : serde.Value) (m : serde.Map)
      → bytes_eq l k ≡ false
      → serde.get k (serde.insert l v m) ≡ serde.get k m

module _ (serde : Serde) (laws : SerdeLaws serde) where
  -- The arguments hold the call's name under `tool`.
  abbrev pub IsNamed : ParsedCall serde → Type 0
  IsNamed call = get_value serde tool_key call.args ≡ some (serde.string call.name)

  named_call-IsNamed : (name : Bytes) (m : serde.Map) → IsNamed (named_call serde name m)
  unfolding get_value
  named_call-IsNamed name m =
      rw (laws.as_object_object (serde.insert tool_key (serde.string name) m), get_value)
        (laws.get_insert tool_key (serde.string name) m)

  same_call-IsNamed : (c d : ParsedCall serde) → c ≡ d → IsNamed c → IsNamed d
  same_call-IsNamed c d e named = rw e at named

  module _ (regexes : Regexes) (unicode : Unicode) where
    abbrev Good : ParsedCall serde → Type 0
    Good call = (call.name ≢ []) × IsNamed call

    same_call-Good : (c d : ParsedCall serde) → c ≡ d → Good c → Good d
    same_call-Good c d e good = rw e at good

    gemma4_call-Good :
        (name : Bytes) (m : serde.Map) (call : ParsedCall serde)
        → gemma4_call serde regexes unicode name m ≡ some call
        → Good call
    unfolding gemma4_call
    gemma4_call-Good [] m call e = absurd (cc e)
    gemma4_call-Good (b ∷ s) m call e =
        let i : named_call serde (b ∷ s) m ≡ call = cc e in
        let good : Good (named_call serde (b ∷ s) m) = (λ f. cc f, named_call-IsNamed (b ∷ s) m) in
        same_call-Good (named_call serde (b ∷ s) m) call i good

    args_of-Good :
        (name : Bytes) (v : Option serde.Value) (call : ParsedCall serde)
        → args_of serde regexes unicode name v ≡ some call
        → Good call
    unfolding args_of
    args_of-Good name none call e = absurd (cc e)
    args_of-Good name (some v) call e = elim (Option-cases (serde.as_object v)) [
      | inl f ↦ gemma4_call-Good name serde.empty call (rw (f, args_of) at e)
      | inr (m, f) ↦ gemma4_call-Good name m call (rw (f, args_of) at e)
    ]

    stripped-Good :
        (s : Bytes) (call : ParsedCall serde)
        → gemma4_stripped serde regexes unicode s ≡ ok (some call)
        → Good call
    unfolding gemma4_stripped
    stripped-Good s call e = elim (Option-cases (split_once b'{' s)) [
      | inl f ↦ elim (Bool-cases (is_bare_name unicode s)) [
        | inl g ↦
            let h : ok (gemma4_call serde regexes unicode s serde.empty) ≡ ok (some call) =
              rw (f, gemma4_stripped, g) at e in
            gemma4_call-Good s serde.empty call (cc h)
        | inr g ↦
            let h : ok none ≡ ok (some call) = rw (f, gemma4_stripped, g) at e in absurd (cc h)
      ]
      | inr ((front, behind), f) ↦
          let (v, g, _) =
            bind_succeeds (λ v. ok (args_of serde regexes unicode (trim front) v))
              (args_json serde regexes unicode (b'{' ∷ behind)) (rw (f, gemma4_stripped) at e) in
          args_of-Good (trim front) v call (cc g)
    ]

    -- A call that the Gemma 4 format parses has a name, and its arguments hold the name under `tool`.
    pub gemma4_parse_body-IsNamed :
        (body : Bytes) (call : ParsedCall serde)
        → gemma4_parse_body serde regexes unicode body ≡ ok (some call)
        → (call.name ≢ []) × IsNamed call
    unfolding gemma4_parse_body
    gemma4_parse_body-IsNamed body call e =
        let stripped = trim (without_call (trim (normalized body))) in
        elim (Bool-cases (is_empty stripped)) [
          | inl f ↦
              let h : ok none ≡ ok (some call) = rw (f, gemma4_parse_body) at e in absurd (cc h)
          | inr f ↦ stripped-Good stripped call (rw (f, gemma4_parse_body) at e)
        ]

  module _ (unicode : Unicode) where
    xml_named-IsNamed :
        (v : serde.Value) (name : Bytes) (m : serde.Map) (call : ParsedCall serde)
        → serde.as_object v ≡ some m
        → xml_named serde unicode v (some name) ≡ some call
        → IsNamed call
    unfolding xml_named
    xml_named-IsNamed v name m call f e =
        let i : named_call serde name m ≡ call = cc (rw (f, xml_named) at e) in
        same_call-IsNamed (named_call serde name m) call i (named_call-IsNamed name m)

    xml_value-IsNamed :
        (v : serde.Value) (call : ParsedCall serde)
        → xml_named serde unicode v (name_under serde tool_key (codes "name") v) ≡ some call
        → IsNamed call
    unfolding xml_named name_under get_value
    xml_value-IsNamed v call e = elim (Option-cases (serde.as_object v)) [
      | inl f ↦ absurd (cc (rw (f, xml_named, name_under, get_value) at e))
      | inr (m, f) ↦ elim (Option-cases (name_under serde tool_key (codes "name") v)) [
        | inl g ↦ absurd (cc (rw (g, xml_named) at e))
        | inr (name, g) ↦ xml_named-IsNamed v name m call f (rw g at e)
      ]
    ]

    -- The arguments of a call that the XML format parses hold its name under `tool`.
    pub xml_parse_body-IsNamed :
        (body : Bytes) (call : ParsedCall serde)
        → xml_parse_body serde unicode body ≡ some call
        → IsNamed call
    unfolding xml_parse_body
    xml_parse_body-IsNamed body call e =
        elim (Bool-cases (not (starts_with b'{' (trim body)) && is_bare_name unicode (trim body))) [
          | inl f ↦
              let i : named_call serde (trim body) serde.empty ≡ call =
                cc (rw (f, xml_parse_body) at e) in
              same_call-IsNamed (named_call serde (trim body) serde.empty) call i
                (named_call-IsNamed (trim body) serde.empty)
          | inr f ↦ elim (Option-cases (serde.from_str (trim body))) [
            | inl g ↦ absurd (cc (rw (f, g, xml_parse_body) at e))
            | inr (v, g) ↦ xml_value-IsNamed v call (rw (f, g, xml_parse_body) at e)
          ]
        ]
