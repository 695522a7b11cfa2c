-- ===== src/Prelude/Text.antt =====
-- Rust strings and byte vectors, as lists of bytes (UTF-8), and the standard library's operations
-- on them that the program uses.
use Prim.Native.Char.{code}
use Prim.Native.Nat.{ℕ, zero, suc, ◌+◌, ◌*◌, ◌/◌, ◌%◌, ◌<◌}
use Prim.Native.String.{String}
use mathlib.Core.Bool.{Bool, true, false, not, ◌&&◌}
use mathlib.Core.List.{List, [], ◌∷◌, ◌++◌}
use mathlib.Core.Logic.{◌↔◌}
use mathlib.Core.Option.{Option, none, some}
use mathlib.Core.Path.{◌≡◌, refl}
use native.Mathlib.Omega.{arith}
use chitin_model_api.Prelude.Tests.{ltb, leb, ◌==◌, if◌then◌else◌}

abbrev pub Bytes : Type 0
Bytes = List ℕ

abbrev pub IsByte : ℕ → Type 0
IsByte b = b < 256

-- The bytes of an ASCII literal.
abbrev pub codes : String → Bytes
codes String.[] = []
codes (String.◌∷◌ c s) = code c ∷ codes s

unfoldable pub bytes_eq : Bytes → Bytes → Bool
bytes_eq [] [] = true
bytes_eq (x ∷ xs) (y ∷ ys) = x == y && bytes_eq xs ys
bytes_eq _ _ = false

pub bytes_eq_iff : (a b : Bytes) → (bytes_eq a b ≡ true) ↔ (a ≡ b)
unfolding bytes_eq
bytes_eq_iff (x ∷ a) (y ∷ b) = ground (arith, bytes_eq_iff a b)
bytes_eq_iff _ _ = ground arith

-- `u32::to_le_bytes` and `u32::from_le_bytes`.
unfoldable pub u32_to_le_bytes : ℕ → Bytes
u32_to_le_bytes n = (n % 256) ∷ (n / 256 % 256) ∷ (n / 65536 % 256) ∷ (n / 16777216 % 256) ∷ []

unfoldable pub u32_from_le_bytes : ℕ → ℕ → ℕ → ℕ → ℕ
u32_from_le_bytes a b c d = a + 256 * b + 65536 * c + 16777216 * d

-- Decimal digits, as `{}` prints a number. The fuel is the number itself: it falls at each digit.
decimal_onto : ℕ → ℕ → Bytes
decimal_onto zero n = (48 + n % 10) ∷ []
decimal_onto (suc f) n =
    let rest = decimal_onto f (n / 10) in
    if ltb n 10 then (48 + n) ∷ [] else rest ++ ((48 + n % 10) ∷ [])

unfoldable pub decimal : ℕ → Bytes
unfolding decimal_onto
decimal n = decimal_onto n n

-- `str::starts_with` / `strip_prefix`: what is left behind the prefix.
unfoldable pub strip_prefix : Bytes → Bytes → Option Bytes
strip_prefix [] s = some s
strip_prefix (p ∷ ps) [] = none
strip_prefix (p ∷ ps) (c ∷ s) = if p == c then strip_prefix ps s else none

unfoldable pub is_empty {ℓ} : {A : Type ℓ} → List A → Bool
is_empty [] = true
is_empty (x ∷ xs) = false

-- A byte that continues a UTF-8 character, and one that starts one.
unfoldable pub is_continuation : ℕ → Bool
is_continuation b = not (ltb b 128) && ltb b 192

-- Puts a byte in front of the characters that follow it.
unfoldable pub char_cons : ℕ → List Bytes → List Bytes
unfolding is_continuation
char_cons b [] = (b ∷ []) ∷ []
char_cons b ([] ∷ cs) = (b ∷ []) ∷ cs
char_cons b ((c ∷ ch) ∷ cs) =
    if is_continuation c then (b ∷ c ∷ ch) ∷ cs else (b ∷ []) ∷ (c ∷ ch) ∷ cs

-- `str::chars` of a valid UTF-8 text, each character as its bytes.
unfoldable pub chars : Bytes → List Bytes
unfolding char_cons
chars [] = []
chars (b ∷ s) = char_cons b (chars s)

unfoldable pub lower_byte : ℕ → ℕ
lower_byte b = if leb b'A' b && leb b b'Z' then b + 32 else b

-- `to_ascii_lowercase`, by which `eq_ignore_ascii_case` compares, too.
unfoldable pub lowercase : Bytes → Bytes
unfolding lower_byte
lowercase [] = []
lowercase (b ∷ s) = lower_byte b ∷ lowercase s

lower_byte-lower_byte : (b : ℕ) → lower_byte (lower_byte b) ≡ lower_byte b
unfolding lower_byte
lower_byte-lower_byte b = ground arith

pub lowercase-lowercase : (s : Bytes) → lowercase (lowercase s) ≡ lowercase s
unfolding lowercase
lowercase-lowercase [] = refl
lowercase-lowercase (b ∷ s) = rw (lower_byte-lower_byte b, lowercase-lowercase s) refl
