-- ===== src/Lenient/Trim.antt =====
-- `str::trim` and the other operations on `str` that gemma_utils/src/json_lenient.rs and
-- gemma_utils/src/tool_format.rs use, on the bytes of a text.
pub mod Same
use mathlib.Core.List.{reverse}
use chitin_model_api.Prelude.Tests.{leb, ◌==◌, if◌then◌else◌}
use chitin_model_api.Prelude.Text.{Bytes, strip_prefix}
use chitin_model_api.Prelude.{
  ℕ, zero, suc, Bool, true, false, ◌&&◌, ◌||◌, Option, none, some, List, [], ◌∷◌, ◌++◌,
}

-- The Unicode white space of one, two and three bytes.
unfoldable pub is_white : ℕ → Bool
is_white b = leb 9 b && leb b 13 || b == 32

is_white2 : ℕ → ℕ → Bool
is_white2 b c = b == 194 && (c == 133 || c == 160)

is_white3 : ℕ → ℕ → ℕ → Bool
is_white3 b c d =
    b == 225 && c == 154 && d == 128
    || b == 226 && c == 128 && (leb 128 d && leb d 138 || d == 168 || d == 169 || d == 175)
    || b == 226 && c == 129 && d == 159
    || b == 227 && c == 128 && d == 128

-- The bytes of the white space that a text starts with, of one character, and that it ends with, if
-- it is given from its end on.
unfoldable pub first_white : Bytes → ℕ
unfolding is_white is_white2 is_white3
first_white [] = 0
first_white (b ∷ []) = if is_white b then 1 else 0
first_white (b ∷ c ∷ []) = if is_white b then 1 else if is_white2 b c then 2 else 0
first_white (b ∷ c ∷ d ∷ _) =
    if is_white b then 1 else if is_white2 b c then 2 else if is_white3 b c d then 3 else 0

unfoldable pub last_white : Bytes → ℕ
unfolding is_white is_white2 is_white3
last_white [] = 0
last_white (b ∷ []) = if is_white b then 1 else 0
last_white (b ∷ c ∷ []) = if is_white b then 1 else if is_white2 c b then 2 else 0
last_white (b ∷ c ∷ d ∷ _) =
    if is_white b then 1 else if is_white2 c b then 2 else if is_white3 d c b then 3 else 0

unfoldable pub trim_from : (Bytes → ℕ) → ℕ → Bytes → Bytes
trim_from white k [] = []
trim_from white (suc k) (b ∷ s) = trim_from white k s
trim_from white zero (b ∷ s) = elim (white (b ∷ s)) [ zero ↦ b ∷ s | suc k ↦ trim_from white k s ]

unfoldable pub trim : Bytes → Bytes
unfolding trim_from first_white last_white
trim s = reverse (trim_from last_white 0 (reverse (trim_from first_white 0 s)))

unfoldable pub strip_suffix : Bytes → Bytes → Option Bytes
unfolding strip_prefix
strip_suffix suffix s = elim (strip_prefix (reverse suffix) (reverse s)) [
  | none ↦ none
  | some rest ↦ some (reverse rest)
]

unfoldable pub starts_with : ℕ → Bytes → Bool
starts_with b [] = false
starts_with b (c ∷ s) = b == c

unfoldable pub ends_with : ℕ → Bytes → Bool
unfolding starts_with
ends_with b s = starts_with b (reverse s)

unfoldable pub contains : Bytes → Bytes → Bool
unfolding strip_prefix
contains needle [] = elim (strip_prefix needle []) [ none ↦ false | some _ ↦ true ]
contains needle (b ∷ s) =
    let rest = contains needle s in
    elim (strip_prefix needle (b ∷ s)) [ none ↦ rest | some _ ↦ true ]

-- `find` of a byte: what stands before the first, and behind it.
unfoldable pub split_once : ℕ → Bytes → Option (Bytes × Bytes)
split_once b [] = none
split_once b (c ∷ s) =
    let rest = split_once b s in
    if b == c then some ([], s) else elim rest [ none ↦ none | some r ↦ some (c ∷ r.0, r.1) ]
