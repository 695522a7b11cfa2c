-- ===== src/Lenient/Controls.antt =====
-- `escape_string_controls` of gemma_utils/src/json_lenient.rs.
pub mod Clean
pub mod Same
use chitin_model_api.Lenient.Chars.{push_char}
use chitin_model_api.Prelude.Tests.{ltb, ◌==◌, if◌then◌else◌}
use chitin_model_api.Prelude.Text.{Bytes, codes}
use chitin_model_api.Prelude.{
  ℕ, zero, suc, ◌+◌, ◌/◌, ◌%◌, Bool, true, false, ◌||◌, List, [], ◌∷◌, ◌++◌,
}

-- What one round pushes, the bytes that `i` moves over beyond this one, and `in_string` behind it.
pub record EscapeRound : Type 0 where
  pub pushed : Bytes
  pub skipped : ℕ
  pub in_string : Bool

unfoldable pub is_valid_escape : ℕ → Bool
is_valid_escape c =
    c == b'"'
    || c == b'\\'
    || c == b'/'
    || c == b'b'
    || c == b'f'
    || c == b'n'
    || c == b'r'
    || c == b't'
    || c == b'u'

-- A digit of `{:x}`.
hex_digit : ℕ → ℕ
hex_digit d = if ltb d 10 then b'0' + d else 87 + d

-- `format!("\\u{:04x}", b)` of a byte.
unfoldable pub unicode_escape : ℕ → Bytes
unfolding hex_digit
unicode_escape b = b'\\' ∷ b'u' ∷ b'0' ∷ b'0' ∷ hex_digit (b / 16) ∷ hex_digit (b % 16) ∷ []

-- The `match` on a byte inside a string.
unfoldable pub escaped_byte : ℕ → Bytes
unfolding push_char unicode_escape
escaped_byte b =
    if b == b'\n'
    then b'\\' ∷ b'n' ∷ []
    else if b == b'\r'
    then b'\\' ∷ b'r' ∷ []
    else if b == b'\t'
    then b'\\' ∷ b't' ∷ []
    else if ltb b 32
    then unicode_escape b
    else push_char b

unfoldable pub inside_string : ℕ → EscapeRound
unfolding escaped_byte
inside_string b =
    if b == b'"'
    then record { pushed = b'"' ∷ []; skipped = 0; in_string = false }
    else record { pushed = escaped_byte b; skipped = 0; in_string = true }

-- A backslash inside a string with a byte behind it.
unfoldable pub at_backslash : ℕ → EscapeRound
unfolding is_valid_escape push_char
at_backslash nxt =
    if is_valid_escape nxt
    then record { pushed = b'\\' ∷ push_char nxt; skipped = 1; in_string = true }
    else record { pushed = b'\\' ∷ b'\\' ∷ []; skipped = 0; in_string = true }

unfoldable pub escape_round : Bool → ℕ → Bytes → EscapeRound
unfolding inside_string at_backslash push_char
escape_round true b [] = inside_string b
escape_round true b (nxt ∷ _) = if b == b'\\' then at_backslash nxt else inside_string b
escape_round false b _ = record { pushed = push_char b; skipped = 0; in_string = b == b'"' }

-- The loop; the number is how far `i` is ahead of the bytes.
unfoldable pub escape_from : ℕ → Bool → Bytes → Bytes
unfolding escape_round
escape_from k in_string [] = []
escape_from (suc k) in_string (b ∷ s) = escape_from k in_string s
escape_from zero in_string (b ∷ s) =
    let r = escape_round in_string b s in r.pushed ++ escape_from r.skipped r.in_string s

unfoldable pub escape_string_controls : Bytes → Bytes
unfolding escape_from
escape_string_controls raw = escape_from 0 false raw
