-- ===== src/Lenient/Controls/Clean.antt =====
-- A reader of string literals that goes byte by byte, without an index, and what it says of the
-- output of `escape_string_controls`.
use chitin_model_api.Lenient.Chars.{push_char}
use chitin_model_api.Lenient.Controls.{
  escape_round, is_valid_escape, unicode_escape, escaped_byte, inside_string, at_backslash,
  escape_from, escape_string_controls,
}
use chitin_model_api.Prelude.Tests.{ltb, ◌==◌, if◌then◌else◌, Bool-cases}
use chitin_model_api.Prelude.Text.{Bytes}
use chitin_model_api.Prelude.{
  ℕ, zero, suc, ◌≡◌, refl, ◌∙◌, inl, inr, Bool, true, false, Option, none, some, [], ◌∷◌, ◌++◌,
  append-nil, arith,
}

pub data Place : Type 0 where
  outside inside after_backslash : Place

-- Where the reader is behind a byte, or `none` where strict JSON has no such byte in a string.
unfoldable pub move : Place → ℕ → Option Place
unfolding is_valid_escape
move outside b = some (if b == b'"' then inside else outside)
move inside b =
    if b == b'"'
    then some outside
    else if b == b'\\'
    then some after_backslash
    else if ltb b 32
    then none
    else some inside
move after_backslash b = if is_valid_escape b then some inside else none

-- No string of the text holds a control character or an unknown escape. The text may end inside one.
unfoldable pub clean_from : Place → Bytes → Bool
unfolding move
clean_from at [] = true
clean_from at (b ∷ s) = elim (move at b) [ none ↦ false | some at' ↦ clean_from at' s ]

unfoldable pub strings_are_clean : Bytes → Bool
unfolding clean_from
strings_are_clean = clean_from outside

abbrev pub place : Bool → Place
place true = inside
place false = outside

-- Pushed bytes lead from one place to the next.
Leads : Place → Bytes → Place → Type 0
Leads at t to = (s : Bytes) → clean_from at (t ++ s) ≡ clean_from to s

escaped_byte-Leads :
    (b : ℕ) → (b == b'"') ≡ false → (b == b'\\') ≡ false → Leads inside (escaped_byte b) inside
unfolding Leads clean_from move escaped_byte unicode_escape push_char is_valid_escape
escaped_byte-Leads b h k s = ground arith

inside_string-Leads :
    (b : ℕ)
    → (b == b'\\') ≡ false
    → Leads inside (inside_string b).pushed (place (inside_string b).in_string)
unfolding Leads clean_from move inside_string escaped_byte unicode_escape push_char is_valid_escape
inside_string-Leads b h s = ground arith

at_backslash-Leads :
    (c : ℕ) → Leads inside (at_backslash c).pushed (place (at_backslash c).in_string)
unfolding Leads clean_from move at_backslash push_char is_valid_escape
at_backslash-Leads c s = ground arith

outside-Leads : (b : ℕ) → Leads outside (push_char b) (place (b == b'"'))
unfolding Leads clean_from move push_char
outside-Leads b s = ground arith

inside_string-clean : (b : ℕ) → clean_from inside (inside_string b).pushed ≡ true
unfolding clean_from move inside_string escaped_byte unicode_escape push_char is_valid_escape
inside_string-clean b = ground arith

escape_round-Leads :
    (q : Bool) (b c : ℕ) (s : Bytes)
    → Leads (place q) (escape_round q b (c ∷ s)).pushed (place (escape_round q b (c ∷ s)).in_string)
unfolding escape_round
escape_round-Leads false b c s = outside-Leads b
escape_round-Leads true b c s = elim (Bool-cases (b == b'\\')) [
  | inl h ↦ rw h (at_backslash-Leads c)
  | inr h ↦ rw h (inside_string-Leads b h)
]

escape_from-clean : (k : ℕ) (q : Bool) (s : Bytes) → clean_from (place q) (escape_from k q s) ≡ true
unfolding escape_from escape_round clean_from Leads
escape_from-clean k q [] = refl
escape_from-clean (suc k) q (b ∷ s) = escape_from-clean k q s
escape_from-clean zero true (b ∷ []) = rw append-nil (inside_string-clean b)
escape_from-clean zero false (b ∷ []) = outside-Leads b []
escape_from-clean zero q (b ∷ c ∷ s) =
    let r = escape_round q b (c ∷ s) in
    escape_round-Leads q b c s (escape_from r.skipped r.in_string (c ∷ s))
    ∙ escape_from-clean r.skipped r.in_string (c ∷ s)

-- Whatever the text, the output holds no control character and no unknown escape in a string.
pub escape_string_controls-clean :
    (raw : Bytes) → strings_are_clean (escape_string_controls raw) ≡ true
unfolding strings_are_clean escape_string_controls
escape_string_controls-clean = escape_from-clean 0 false
