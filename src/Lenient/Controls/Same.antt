-- ===== src/Lenient/Controls/Same.antt =====
-- Which texts `escape_string_controls` leaves as they are.
use chitin_model_api.Lenient.Chars.{push_char}
use chitin_model_api.Lenient.Controls.Clean.{
  outside, inside, move, clean_from, strings_are_clean, place, escape_string_controls-clean,
}
use chitin_model_api.Lenient.Controls.{
  escape_round, unicode_escape, escaped_byte, inside_string, at_backslash, escape_from,
  escape_string_controls,
}
use chitin_model_api.Prelude.Lists.{All, drop, length, length-append}
use chitin_model_api.Prelude.Tests.{ltb, ◌==◌, if◌then◌else◌, Bool-cases}
use chitin_model_api.Prelude.Text.{Bytes}
use chitin_model_api.Prelude.{
  ℕ, zero, suc, ◌+◌, ◌≤◌, ◌<◌, ◌≡◌, refl, ap, ◌↔◌, inl, inr, not, Bool, true, false, append-nil, [],
  ◌∷◌, arith,
}

abbrev pub IsAscii : Bytes → Type 0
IsAscii = All (λ b. b < 128)

push_char-ascii : (b : ℕ) → b < 128 → push_char b ≡ b ∷ []
unfolding push_char
push_char-ascii b h = ground arith

-- A quote outside strings opens one.
clean_outside :
    (b : ℕ) (s : Bytes)
    → clean_from outside (b ∷ s) ≡ true
    → clean_from (place (b == b'"')) s ≡ true
unfolding clean_from move
clean_outside b s c = ground arith

-- A byte inside a string that is no backslash.
clean_inside :
    (b : ℕ) (s : Bytes)
    → b < 128
    → (b == b'\\') ≡ false
    → clean_from inside (b ∷ s) ≡ true
    → (inside_string b ≡ record { pushed = b ∷ []; skipped = 0; in_string = not (b == b'"') })
      × (clean_from (place (not (b == b'"'))) s ≡ true)
unfolding clean_from move inside_string escaped_byte push_char
clean_inside b s a h c = ground arith

clean_backslash :
    (b d : ℕ) (s : Bytes)
    → d < 128
    → (b == b'\\') ≡ true
    → clean_from inside (b ∷ d ∷ s) ≡ true
    → (at_backslash d ≡ record { pushed = b ∷ d ∷ []; skipped = 1; in_string = true })
      × (clean_from inside s ≡ true)
unfolding clean_from move at_backslash push_char
clean_backslash b d s a h c = ground arith

last_inside :
    (b : ℕ) → b < 128 → clean_from inside (b ∷ []) ≡ true → (inside_string b).pushed ≡ b ∷ []
unfolding clean_from move inside_string escaped_byte push_char
last_inside b a c = ground arith

escape_from-same :
    (q : Bool) (s : Bytes) → IsAscii s → clean_from (place q) s ≡ true → escape_from 0 q s ≡ s
unfolding escape_from escape_round
escape_from-same q [] a c = refl
escape_from-same false (b ∷ s) a c =
    rw (push_char-ascii b a.0)
      (ap (◌∷◌ b) (escape_from-same (b == b'"') s a.1 (clean_outside b s c)))
escape_from-same true (b ∷ []) a c = rw append-nil (last_inside b a.0 c)
escape_from-same true (b ∷ d ∷ s) a c = elim (Bool-cases (b == b'\\')) [
  | inl h ↦
      let (e, c') = clean_backslash b d s a.1.0 h c in
      rw (h, e) (ap (λ x. b ∷ d ∷ x) (escape_from-same true s a.1.1 c'))
  | inr h ↦
      let (e, c') = clean_inside b (d ∷ s) a.0 h c in
      rw (h, e) (ap (◌∷◌ b) (escape_from-same (not (b == b'"')) (d ∷ s) a.1 c'))
]

-- How many bytes are no ASCII.
wide : Bytes → ℕ
wide [] = 0
wide (b ∷ s) = if ltb b 128 then wide s else suc (wide s)

push_char-length : (b : ℕ) (s : Bytes) → suc (wide (b ∷ s)) ≤ length (push_char b) + wide s
unfolding wide push_char
push_char-length b s = ground arith

inside_string-length :
    (b : ℕ) (s : Bytes) (rest : ℕ → Bool → Bytes)
    → ((q : Bool) → length s + wide s ≤ length (rest 0 q))
    → length (b ∷ s) + wide (b ∷ s)
      ≤ length (inside_string b).pushed
        + length (rest (inside_string b).skipped (inside_string b).in_string)
unfolding wide inside_string escaped_byte unicode_escape push_char
inside_string-length b s rest h = ground (arith, h true, h false)

-- Two bytes are taken behind a backslash, or the backslash alone.
at_backslash-length :
    (b d : ℕ) (s : Bytes) (rest : ℕ → Bool → Bytes)
    → (b == b'\\') ≡ true
    → length s + wide s ≤ length (rest 1 true)
    → length (d ∷ s) + wide (d ∷ s) ≤ length (rest 0 true)
    → length (b ∷ d ∷ s) + wide (b ∷ d ∷ s)
      ≤ length (at_backslash d).pushed
        + length (rest (at_backslash d).skipped (at_backslash d).in_string)
unfolding wide at_backslash push_char
at_backslash-length b d s rest h two alone = ground arith

-- No byte is lost, and each that is no ASCII takes one more.
escape_from-length :
    (k : ℕ) (q : Bool) (s : Bytes)
    → length (drop k s) + wide (drop k s) ≤ length (escape_from k q s)
unfolding escape_from escape_round wide
escape_from-length zero q [] = omega arith
escape_from-length (suc k) q [] = omega arith
escape_from-length (suc k) q (b ∷ s) = escape_from-length k q s
escape_from-length zero false (b ∷ s) =
    rw length-append (omega (arith, push_char-length b s, escape_from-length 0 (b == b'"') s))
escape_from-length zero true (b ∷ []) =
    rw append-nil (omega (arith, inside_string-length b [] (λ k q. []) (λ q. omega arith)))
escape_from-length zero true (b ∷ d ∷ s) = rw length-append (elim (Bool-cases (b == b'\\')) [
  | inl h ↦ rw h (
      at_backslash-length b d s (λ k q. escape_from k q (d ∷ s)) h
        (escape_from-length 1 true (d ∷ s)) (escape_from-length 0 true (d ∷ s)))
  | inr h ↦ rw h (
      inside_string-length b (d ∷ s) (λ k q. escape_from k q (d ∷ s))
        (λ q. escape_from-length 0 q (d ∷ s)))
])

wide-IsAscii : (s : Bytes) → wide s ≡ 0 → IsAscii s
unfolding wide
wide-IsAscii [] h = tt
wide-IsAscii (b ∷ s) h = elim (Bool-cases (ltb b 128)) [
  | inl e ↦ (ground (arith, e), wide-IsAscii s (rw e at h))
  | inr e ↦ absurd (ground (arith, e, h))
]

-- The text comes back as it was exactly if it is ASCII and its strings hold no control character and
-- no unknown escape.
pub escape_string_controls-same_iff :
    (raw : Bytes)
    → (escape_string_controls raw ≡ raw) ↔ (IsAscii raw × (strings_are_clean raw ≡ true))
unfolding strings_are_clean escape_string_controls
escape_string_controls-same_iff raw = (
  λ e. (
    wide-IsAscii raw (omega (arith, escape_from-length 0 false raw, ap length e)),
    rw e at (escape_string_controls-clean raw),
  ),
  λ h. escape_from-same false raw h.0 h.1,
)
