-- ===== src/Lenient/Comma.antt =====
-- `has_top_level_comma` of gemma_utils/src/json_lenient.rs. The depth is an i32: here it is its
-- bits, 2^32 - 1 for -1, and wraps, as a release build does; with overflow checks the source panics
-- where it would leave the range, which takes a text of 2^31 brackets.
pub mod Pieces
pub mod Found
use chitin_model_api.Prelude.Tests.{◌==◌, if◌then◌else◌}
use chitin_model_api.Prelude.Text.{Bytes}
use chitin_model_api.Prelude.{
  ℕ, zero, suc, ◌+◌, ◌%◌, Bool, true, false, not, ◌&&◌, ◌||◌, List, [], ◌∷◌,
}

-- `depth += 1` and `depth -= 1` on the bits of an i32.
unfoldable pub increment : ℕ → ℕ
increment depth = (depth + 1) % 4294967296

unfoldable pub decrement : ℕ → ℕ
decrement depth = (depth + 4294967295) % 4294967296

-- The depth and `in_string` behind a byte outside strings that is no comma at depth 0.
unfoldable pub past : ℕ → ℕ → ℕ × Bool
unfolding increment decrement
past depth b =
    if b == b'"'
    then (depth, true)
    else if b == b'[' || b == b'{'
    then (increment depth, false)
    else if b == b']' || b == b'}'
    then (decrement depth, false)
    else (depth, false)

-- The loop; the first number is how far `i` is ahead of the bytes.
unfoldable pub comma_from : ℕ → ℕ → Bool → Bytes → Bool
unfolding past
comma_from k depth in_string [] = false
comma_from (suc k) depth in_string (b ∷ s) = comma_from k depth in_string s
comma_from zero depth true (b ∷ []) = false
comma_from zero depth true (b ∷ c ∷ s) =
    comma_from (if b == b'\\' then 1 else 0) depth (not (b == b'"')) (c ∷ s)
comma_from zero depth false (b ∷ s) =
    let (depth', in_string) = past depth b in
    let rest = comma_from 0 depth' in_string s in if b == b',' && depth == 0 then true else rest

unfoldable pub has_top_level_comma : Bytes → Bool
unfolding comma_from
has_top_level_comma s = comma_from 0 0 false s
