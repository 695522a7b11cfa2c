-- ===== src/Lenient/Trim/Same.antt =====
-- Texts that `trim` leaves as they are: the first and the last byte are visible ASCII.
use mathlib.Core.List.{reverse, reverse_aux}
use chitin_model_api.Lenient.Trim.{first_white, last_white, trim_from, trim, is_white, split_once}
use chitin_model_api.Prelude.Lists.{All}
use chitin_model_api.Prelude.Tests.{ltb, leb, ◌==◌, ==_refl}
use chitin_model_api.Prelude.Text.{Bytes}
use chitin_model_api.Prelude.{
  ℕ, ◌≡◌, refl, ap, ◌∙◌, Bool, true, false, ◌&&◌, some, [], ◌∷◌, ◌++◌, arith,
}

abbrev pub is_dark : ℕ → Bool
is_dark b = leb 33 b && ltb b 128

-- The text starts with such a byte, or is empty.
abbrev pub StartsDark : Bytes → Type 0
StartsDark [] = Unit
StartsDark (b ∷ s) = is_dark b ≡ true

first_white-dark : (s : Bytes) → StartsDark s → first_white s ≡ 0
unfolding first_white is_white
first_white-dark [] h = refl
first_white-dark (b ∷ []) h = ground (arith, h)
first_white-dark (b ∷ c ∷ []) h = ground (arith, h)
first_white-dark (b ∷ c ∷ d ∷ s) h = ground (arith, h)

pub last_white-dark : (s : Bytes) → StartsDark s → last_white s ≡ 0
unfolding last_white is_white
last_white-dark [] h = refl
last_white-dark (b ∷ []) h = ground (arith, h)
last_white-dark (b ∷ c ∷ []) h = ground (arith, h)
last_white-dark (b ∷ c ∷ d ∷ s) h = ground (arith, h)

trim_from-same : (white : Bytes → ℕ) (s : Bytes) → white s ≡ 0 → trim_from white 0 s ≡ s
unfolding trim_from
trim_from-same white [] h = refl
trim_from-same white (b ∷ s) h = rw (h, trim_from) refl

reverse_aux-twice : (s acc : Bytes) → reverse (reverse_aux s acc) ≡ reverse_aux acc s
reverse_aux-twice [] acc = refl
reverse_aux-twice (b ∷ s) acc = reverse_aux-twice s (b ∷ acc)

trim-same : (s : Bytes) → StartsDark s → StartsDark (reverse s) → trim s ≡ s
unfolding trim
trim-same s h k =
    rw
      (
        trim_from-same first_white s (first_white-dark s h),
        trim_from-same last_white (reverse s) (last_white-dark (reverse s) k),
      )
      (reverse_aux-twice s [])

-- The text ends with the byte.
abbrev pub Ends : ℕ → Bytes → Type 0
Ends c s = (t : Bytes) × (s ≡ t ++ (c ∷ []))

pub Ends-cons : (b c : ℕ) (s : Bytes) → Ends c s → Ends c (b ∷ s)
Ends-cons b c s (t, e) = (b ∷ t, ap (◌∷◌ b) e)

pub Ends-append : (c : ℕ) (p s : Bytes) → Ends c s → Ends c (p ++ s)
Ends-append c [] s h = h
Ends-append c (b ∷ p) s h = Ends-cons b c (p ++ s) (Ends-append c p s h)

reverse_aux-last : (t acc : Bytes) (c : ℕ) → reverse_aux (t ++ (c ∷ [])) acc ≡ c ∷ reverse_aux t acc
reverse_aux-last [] acc c = refl
reverse_aux-last (b ∷ t) acc c = reverse_aux-last t (b ∷ acc) c

Ends-StartsDark : (c : ℕ) (s : Bytes) → is_dark c ≡ true → Ends c s → StartsDark (reverse s)
Ends-StartsDark c s k (t, e) =
    let last : reverse s ≡ c ∷ reverse t = ap reverse e ∙ reverse_aux-last t [] c in rw last k

-- A text between two visible bytes.
pub trim-Ends :
    (b c : ℕ) (s : Bytes)
    → is_dark b ≡ true
    → is_dark c ≡ true
    → Ends c (b ∷ s)
    → trim (b ∷ s) ≡ b ∷ s
trim-Ends b c s h k l = trim-same (b ∷ s) h (Ends-StartsDark c (b ∷ s) k l)

reverse_aux-All :
    (s acc : Bytes)
    → All (λ b. is_dark b ≡ true) s
    → All (λ b. is_dark b ≡ true) acc
    → All (λ b. is_dark b ≡ true) (reverse_aux s acc)
reverse_aux-All [] acc h k = k
reverse_aux-All (b ∷ s) acc h k = reverse_aux-All s (b ∷ acc) h.1 (h.0, k)

All-StartsDark : (s : Bytes) → All (λ b. is_dark b ≡ true) s → StartsDark s
All-StartsDark [] h = tt
All-StartsDark (b ∷ s) h = h.0

-- A text of visible bytes.
pub trim-visible : (s : Bytes) → All (λ b. is_dark b ≡ true) s → trim s ≡ s
trim-visible s h =
    trim-same s (All-StartsDark s h) (All-StartsDark (reverse s) (reverse_aux-All s [] h tt))

-- The first occurrence of a byte behind a text that lacks it.
pub split_once-append :
    (b : ℕ) (p s : Bytes) → All (λ c. (b == c) ≡ false) p → split_once b (p ++ b ∷ s) ≡ some (p, s)
unfolding split_once
split_once-append b [] s h = rw (==_refl b) refl
split_once-append b (c ∷ p) s h = rw (h.0, split_once-append b p s h.1) refl
