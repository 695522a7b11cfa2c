-- ===== src/Lenient/Keys.antt =====
-- `quote_bare_keys` of gemma_utils/src/json_lenient.rs.
pub mod Scan
pub mod Idents
pub mod Documents
pub mod Ending
pub mod Repairs
use chitin_model_api.Lenient.Chars.{push_char, is_whitespace, starts_ident, is_ident, span}
use chitin_model_api.Prelude.Lists.{length}
use chitin_model_api.Prelude.Tests.{◌==◌, if◌then◌else◌}
use chitin_model_api.Prelude.Text.{Bytes}
use chitin_model_api.Prelude.{
  ℕ, zero, suc, ◌+◌, Bool, true, false, not, ◌&&◌, ◌||◌, List, [], ◌∷◌, ◌++◌,
}

-- What one round pushes, the bytes that `i` moves over beyond this one, and the two flags behind it.
pub record KeyRound : Type 0 where
  pub pushed : Bytes
  pub skipped : ℕ
  pub in_string : Bool
  pub prev_was_open_or_comma : Bool

-- A byte that is pushed by itself.
abbrev pub copied : Bool → Bool → ℕ → KeyRound
copied q p b = record {
  pushed = push_char b;
  skipped = 0;
  in_string = q;
  prev_was_open_or_comma = p;
}

unfoldable pub in_string_round : Bool → ℕ → Bytes → KeyRound
unfolding push_char
in_string_round p b [] = copied (not (b == b'"')) p b
in_string_round p b (c ∷ _) =
    if b == b'\\'
    then record {
      pushed = push_char b ++ push_char c;
      skipped = 1;
      in_string = true;
      prev_was_open_or_comma = p;
    }
    else copied (not (b == b'"')) p b

-- Text that is pushed for `n` more bytes, behind which no key starts.
abbrev pushed_for : Bytes → ℕ → KeyRound
pushed_for t n = record {
  pushed = t;
  skipped = n;
  in_string = false;
  prev_was_open_or_comma = false;
}

abbrev pub quoted : ℕ → Bytes → Bytes
quoted b ident = b'"' ∷ b ∷ ident ++ (b'"' ∷ [])

-- An identifier and the whitespace behind it, which are not pushed yet, and what follows. Only the
-- identifier is passed over, or with `=` all of it.
unfoldable pub separator_round : ℕ → Bytes → Bytes → Bytes → KeyRound
separator_round b ident space [] = pushed_for (b ∷ ident) (length ident)
separator_round b ident space (sep ∷ _) =
    if sep == b':'
    then pushed_for (quoted b ident) (length ident)
    else if sep == b'='
    then pushed_for (quoted b ident ++ (space ++ (b':' ∷ []))) (length ident + length space + 1)
    else pushed_for (b ∷ ident) (length ident)

-- A bare identifier where a key may stand: `start` to `i`, with `start` its first byte.
unfoldable pub ident_round : ℕ → Bytes → KeyRound
unfolding separator_round span
ident_round b s =
    let (ident, behind) = span is_ident s in
    let (space, rest) = span is_whitespace behind in separator_round b ident space rest

unfoldable pub key_round : Bool → Bool → ℕ → Bytes → KeyRound
unfolding in_string_round ident_round is_whitespace starts_ident push_char
key_round true p b s = in_string_round p b s
key_round false p b s =
    if b == b'"'
    then copied true false b
    else if b == b'{' || b == b','
    then copied false true b
    else if is_whitespace b
    then copied false p b
    else if p && starts_ident b
    then ident_round b s
    else copied false false b

-- The loop; the number is how far `i` is ahead of the bytes.
unfoldable pub quote_from : ℕ → Bool → Bool → Bytes → Bytes
unfolding key_round
quote_from k q p [] = []
quote_from (suc k) q p (b ∷ s) = quote_from k q p s
quote_from zero q p (b ∷ s) =
    let r = key_round q p b s in
    r.pushed ++ quote_from r.skipped r.in_string r.prev_was_open_or_comma s

unfoldable pub quote_bare_keys : Bytes → Bytes
unfolding quote_from
quote_bare_keys raw = quote_from 0 false false raw
