-- ===== src/ToolFormats/Gemma4.antt =====
-- The Gemma 4 format on a call whose arguments are loosely written JSON.
use chitin_model_api.Lenient.Chars.{is_ident, is_alphanumeric, is_alphabetic}
use chitin_model_api.Lenient.Keys.Documents.{
  object, Fields, loose, strict, write, write_fields, IsJson,
}
use chitin_model_api.Lenient.Keys.Ending.{write_fields-Ends}
use chitin_model_api.Lenient.Keys.Scan.{AllPass}
use chitin_model_api.Lenient.Object.Recovers.{lenient_parse_object-write}
use chitin_model_api.Lenient.Quotes.{Regexes}
use chitin_model_api.Lenient.Serde.{Serde}
use chitin_model_api.Lenient.Trim.Same.{
  is_dark, Ends, Ends-cons, Ends-append, trim-Ends, trim-visible, split_once-append,
}
use chitin_model_api.Lenient.Trim.{trim, contains}
use chitin_model_api.Prelude.Lists.{All}
use chitin_model_api.Prelude.Result.{ok}
use chitin_model_api.Prelude.Tests.{◌==◌}
use chitin_model_api.Prelude.Text.{Bytes, codes, strip_prefix}
use chitin_model_api.Prelude.{ℕ, ◌≡◌, refl, ap, ◌∙◌, true, false, none, some, [], ◌∷◌, ◌++◌, arith}
use chitin_model_api.ToolFormats.{
  Unicode, named_call, normalized, leaked_quote, without_call, args_json, gemma4_call, args_of,
  gemma4_stripped, gemma4_parse_body,
}

ident-dark : (b : ℕ) → is_ident b ≡ true → is_dark b ≡ true
unfolding is_ident is_alphanumeric is_alphabetic
ident-dark b h = ground arith

ident-no_brace : (b : ℕ) → is_ident b ≡ true → (b'{' == b) ≡ false
unfolding is_ident is_alphanumeric is_alphabetic
ident-no_brace b h = ground arith

idents-dark : (s : Bytes) → AllPass is_ident s → All (λ b. is_dark b ≡ true) s
idents-dark [] h = tt
idents-dark (b ∷ s) h = (ident-dark b h.0, idents-dark s h.1)

idents-no_brace : (s : Bytes) → AllPass is_ident s → All (λ c. (b'{' == c) ≡ false) s
idents-no_brace [] h = tt
idents-no_brace (b ∷ s) h = (ident-no_brace b h.0, idents-no_brace s h.1)

-- `call:`, the name and the arguments.
abbrev pub call_text : Bytes → Bytes → Bytes
call_text name args = codes "call:" ++ (name ++ args)

normalized-same : (body : Bytes) → contains leaked_quote body ≡ false → normalized body ≡ body
unfolding normalized
normalized-same body h = rw h refl

-- The name in front of arguments that start with a brace and end with one.
stripped_text :
    (b : ℕ) (bs behind : Bytes)
    → AllPass is_ident (b ∷ bs)
    → Ends b'}' (b'{' ∷ behind)
    → contains leaked_quote (call_text (b ∷ bs) (b'{' ∷ behind)) ≡ false
    → trim (without_call (trim (normalized (call_text (b ∷ bs) (b'{' ∷ behind)))))
      ≡ b ∷ bs ++ b'{' ∷ behind
unfolding without_call strip_prefix
stripped_text b bs behind h e l =
    let name_ends = Ends-append b'}' (b ∷ bs) (b'{' ∷ behind) e in
    let call_ends = Ends-append b'}' (codes "call:") (b ∷ bs ++ b'{' ∷ behind) name_ends in
    let whole = call_text (b ∷ bs) (b'{' ∷ behind) in
    ap (λ x. trim (without_call x))
      (ap trim (normalized-same whole l) ∙ trim-Ends b'c' b'}' _ refl refl call_ends)
    ∙ trim-Ends b b'}' (bs ++ b'{' ∷ behind) (ident-dark b h.0) refl name_ends

module _ (serde : Serde) (regexes : Regexes) (unicode : Unicode) where
  named_args :
      (name : Bytes) (v : serde.Value) (m : serde.Map)
      → serde.as_object v ≡ some m
      → args_of serde regexes unicode name (some v) ≡ gemma4_call serde regexes unicode name m
  unfolding args_of
  named_args name v m f = rw (f, args_of) refl

  stripped_call :
      (name behind : Bytes) (v : serde.Value) (m : serde.Map)
      → AllPass is_ident name
      → args_json serde regexes unicode (b'{' ∷ behind) ≡ ok (some v)
      → serde.as_object v ≡ some m
      → gemma4_stripped serde regexes unicode (name ++ b'{' ∷ behind)
        ≡ ok (gemma4_call serde regexes unicode name m)
  unfolding gemma4_stripped
  stripped_call name behind v m h e f =
      rw (split_once-append b'{' name behind (idents-no_brace name h), gemma4_stripped, e)
        (ap ok (
          ap (λ n. args_of serde regexes unicode n (some v))
            (trim-visible name (idents-dark name h))
          ∙ named_args name v m f))

  loose_args :
      (fs : Fields) (v : serde.Value)
      → IsJson (object fs)
      → serde.from_str (write loose (object fs) []) ≡ none
      → serde.from_str (write strict (object fs) []) ≡ some v
      → args_json serde regexes unicode (write loose (object fs) []) ≡ ok (some v)
  unfolding args_json
  loose_args fs v j r s =
      rw (r, args_json) (lenient_parse_object-write serde regexes (object fs) v j s)

  at_stripped :
      (body : Bytes) (b : ℕ) (s : Bytes)
      → trim (without_call (trim (normalized body))) ≡ b ∷ s
      → gemma4_parse_body serde regexes unicode body ≡ gemma4_stripped serde regexes unicode (b ∷ s)
  unfolding gemma4_parse_body
  at_stripped body b s e = rw (e, gemma4_parse_body) refl

  -- A call whose arguments are written loosely is parsed into its name and the entries that serde_json
  -- reads in the strict text, with the name among them, if the name is an identifier, the strings are
  -- ASCII and hold no leaked quote token, and serde_json refuses the loose text.
  pub gemma4_parse_body-write :
      (b : ℕ) (bs : Bytes) (fs : Fields) (v : serde.Value) (m : serde.Map)
      → AllPass is_ident (b ∷ bs)
      → IsJson (object fs)
      → contains leaked_quote (call_text (b ∷ bs) (write loose (object fs) [])) ≡ false
      → serde.from_str (write loose (object fs) []) ≡ none
      → serde.from_str (write strict (object fs) []) ≡ some v
      → serde.as_object v ≡ some m
      → gemma4_parse_body serde regexes unicode (call_text (b ∷ bs) (write loose (object fs) []))
        ≡ ok (some (named_call serde (b ∷ bs) m))
  unfolding write gemma4_call
  gemma4_parse_body-write b bs fs v m h j l r s o =
      let behind = write_fields loose fs (b'}' ∷ []) in
      let ends =
        Ends-cons b'{' b'}' behind (write_fields-Ends b'}' loose fs (b'}' ∷ []) ([], refl)) in
      at_stripped (call_text (b ∷ bs) (b'{' ∷ behind)) b (bs ++ b'{' ∷ behind)
        (stripped_text b bs behind h ends l)
      ∙ stripped_call (b ∷ bs) behind v m h (loose_args fs v j r s) o
