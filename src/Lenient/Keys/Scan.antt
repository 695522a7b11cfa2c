-- ===== src/Lenient/Keys/Scan.antt =====
-- What `quote_bare_keys` does with the pieces of a JSON text: whitespace, strings, identifiers, and
-- the bytes of numbers and literals.
use chitin_model_api.Lenient.Chars.{push_char, is_whitespace, starts_ident, span}
use chitin_model_api.Lenient.Keys.{KeyRound, key_round, in_string_round, quote_from}
use chitin_model_api.Prelude.Lists.{All, length}
use chitin_model_api.Prelude.Tests.{ltb, ◌==◌}
use chitin_model_api.Prelude.Text.{Bytes}
use chitin_model_api.Prelude.{
  ℕ, ◌<◌, ◌≡◌, refl, ap, ◌∙◌, Bool, true, false, not, ◌&&◌, ◌||◌, List, [], ◌∷◌, ◌++◌, append_assoc,
  arith,
}

-- The text starts with no byte that passes the test.
abbrev pub Stops : (ℕ → Bool) → Bytes → Type 0
Stops t [] = Unit
Stops t (b ∷ s) = t b ≡ false

abbrev pub AllPass : (ℕ → Bool) → Bytes → Type 0
AllPass t = All (λ b. t b ≡ true)

pub span-append :
    (t : ℕ → Bool) (xs s : Bytes) → AllPass t xs → Stops t s → span t (xs ++ s) ≡ (xs, s)
unfolding span
span-append t [] [] h k = refl
span-append t [] (b ∷ s) h k = rw k refl
span-append t (x ∷ xs) s h k = rw (h.0, span-append t xs s h.1 k) refl

pub quote_from-skip :
    (q p : Bool) (xs s : Bytes) → quote_from (length xs) q p (xs ++ s) ≡ quote_from 0 q p s
unfolding quote_from
quote_from-skip q p [] s = refl
quote_from-skip q p (x ∷ xs) s = quote_from-skip q p xs s

abbrev pub passes_on : Bool → Bool → ℕ → KeyRound
passes_on q p b = record { pushed = b ∷ []; skipped = 0; in_string = q; prev_was_open_or_comma = p }

space_round :
    (p : Bool) (b : ℕ) (s : Bytes)
    → is_whitespace b ≡ true
    → key_round false p b s ≡ passes_on false p b
unfolding key_round is_whitespace push_char
space_round p b s h = ground arith

-- Whitespace is copied.
pub quote_from-space :
    (p : Bool) (space s : Bytes)
    → AllPass is_whitespace space
    → quote_from 0 false p (space ++ s) ≡ space ++ quote_from 0 false p s
unfolding quote_from
quote_from-space p [] s h = refl
quote_from-space p (b ∷ space) s h =
    rw (space_round p b (space ++ s) h.0) (ap (◌∷◌ b) (quote_from-space p space s h.1))

-- A byte that is no quote, no whitespace and opens no place for a key.
abbrev pub is_plain : ℕ → Bool
is_plain b = ltb b 128 && not (b == b'"' || b == b'{' || b == b',' || is_whitespace b)

plain_round :
    (b : ℕ) (s : Bytes) → is_plain b ≡ true → key_round false false b s ≡ passes_on false false b
unfolding key_round is_whitespace push_char
plain_round b s h = ground arith

pub quote_from-plain :
    (xs s : Bytes)
    → AllPass is_plain xs
    → quote_from 0 false false (xs ++ s) ≡ xs ++ quote_from 0 false false s
unfolding quote_from
quote_from-plain [] s h = refl
quote_from-plain (b ∷ xs) s h =
    rw (plain_round b (xs ++ s) h.0) (ap (◌∷◌ b) (quote_from-plain xs s h.1))

-- A byte that is copied whatever stood before it, and behind which no key starts.
pub quote_from-mark :
    (p : Bool) (b : ℕ) (s : Bytes)
    → is_plain b ≡ true
    → starts_ident b ≡ false
    → quote_from 0 false p (b ∷ s) ≡ b ∷ quote_from 0 false false s
unfolding quote_from key_round is_whitespace push_char
quote_from-mark p b s h k = ground arith

-- `{` and `,`.
pub quote_from-open :
    (p : Bool) (b : ℕ) (s : Bytes)
    → (b == b'{' || b == b',') ≡ true
    → quote_from 0 false p (b ∷ s) ≡ b ∷ quote_from 0 false true s
unfolding quote_from key_round push_char
quote_from-open p b s h = ground arith

-- What stands between the quotes of a string: a character, or a backslash and what it escapes.
pub data StringChar : Type 0 where
  plain escaped : ℕ → StringChar

unfoldable pub body : List StringChar → Bytes
body [] = []
body (plain b ∷ cs) = b ∷ body cs
body (escaped c ∷ cs) = b'\\' ∷ c ∷ body cs

abbrev pub IsStringChar : StringChar → Type 0
IsStringChar (plain b) = (b < 128) × ((b == b'"' || b == b'\\') ≡ false)
IsStringChar (escaped c) = c < 128

in_string-plain :
    (p : Bool) (b : ℕ) (s : Bytes)
    → IsStringChar (plain b)
    → key_round true p b s ≡ passes_on true p b
unfolding key_round in_string_round push_char
in_string-plain p b [] h = ground (arith, h)
in_string-plain p b (c ∷ s) h = ground (arith, h)

in_string-escaped :
    (p : Bool) (c : ℕ) (s : Bytes)
    → c < 128
    → quote_from 0 true p (b'\\' ∷ c ∷ s) ≡ b'\\' ∷ c ∷ quote_from 0 true p s
unfolding quote_from key_round in_string_round push_char
in_string-escaped p c s h = ground arith

quote_from-close :
    (p : Bool) (s : Bytes) → quote_from 0 true p (b'"' ∷ s) ≡ b'"' ∷ quote_from 0 false p s
unfolding quote_from key_round in_string_round push_char
quote_from-close p [] = refl
quote_from-close p (c ∷ s) = refl

quote_from-body :
    (p : Bool) (cs : List StringChar) (s : Bytes)
    → All IsStringChar cs
    → quote_from 0 true p (body cs ++ b'"' ∷ s) ≡ body cs ++ b'"' ∷ quote_from 0 false p s
unfolding quote_from body
quote_from-body p [] s h = quote_from-close p s
quote_from-body p (plain b ∷ cs) s h =
    rw (in_string-plain p b (body cs ++ b'"' ∷ s) h.0) (ap (◌∷◌ b) (quote_from-body p cs s h.1))
quote_from-body p (escaped c ∷ cs) s h =
    in_string-escaped p c (body cs ++ b'"' ∷ s) h.0
    ∙ ap (λ x. b'\\' ∷ c ∷ x) (quote_from-body p cs s h.1)

abbrev pub string_text : List StringChar → Bytes
string_text cs = b'"' ∷ body cs ++ (b'"' ∷ [])

-- A string is copied as it is.
pub quote_from-string :
    (p : Bool) (cs : List StringChar) (s : Bytes)
    → All IsStringChar cs
    → quote_from 0 false p (string_text cs ++ s) ≡ string_text cs ++ quote_from 0 false false s
unfolding quote_from key_round push_char
quote_from-string p cs s h =
    rw
      (
        append_assoc (body cs) (b'"' ∷ []) s,
        append_assoc (body cs) (b'"' ∷ []) (quote_from 0 false false s),
      )
      (ap (◌∷◌ b'"') (quote_from-body false cs s h))
