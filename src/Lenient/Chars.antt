-- ===== src/Lenient/Chars.antt =====
-- The tests on bytes that the passes of gemma_utils/src/json_lenient.rs share, and `push` on a
-- `String`.
use chitin_model_api.Prelude.Tests.{ltb, leb, ◌==◌, if◌then◌else◌}
use chitin_model_api.Prelude.Text.{Bytes}
use chitin_model_api.Prelude.{ℕ, ◌+◌, ◌/◌, ◌%◌, Bool, ◌&&◌, ◌||◌, [], ◌∷◌}

-- `out.push(b as char)`: the byte is read as the code point U+0000 to U+00FF of its number, and the
-- UTF-8 of that is two bytes from U+0080 on.
unfoldable pub push_char : ℕ → Bytes
push_char b = if ltb b 128 then b ∷ [] else (192 + b / 64) ∷ (128 + b % 64) ∷ []

-- `u8::is_ascii_whitespace`, without the vertical tab.
unfoldable pub is_whitespace : ℕ → Bool
is_whitespace b = b == b' ' || b == b'\t' || b == b'\n' || b == 12 || b == b'\r'

unfoldable pub is_alphabetic : ℕ → Bool
is_alphabetic b = leb b'a' b && leb b b'z' || leb b'A' b && leb b b'Z'

unfoldable pub is_alphanumeric : ℕ → Bool
unfolding is_alphabetic
is_alphanumeric b = is_alphabetic b || leb b'0' b && leb b b'9'

-- What an identifier starts with, and what it goes on with.
unfoldable pub starts_ident : ℕ → Bool
unfolding is_alphabetic
starts_ident b = is_alphabetic b || b == b'_'

unfoldable pub is_ident : ℕ → Bool
unfolding is_alphanumeric
is_ident b = is_alphanumeric b || b == b'_'

-- The bytes up to the first that fails the test, and those from there.
unfoldable pub span : (ℕ → Bool) → Bytes → Bytes × Bytes
span p [] = ([], [])
span p (b ∷ s) = let rest = span p s in if p b then (b ∷ rest.0, rest.1) else ([], b ∷ s)
