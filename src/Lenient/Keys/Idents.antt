-- ===== src/Lenient/Keys/Idents.antt =====
-- What `quote_bare_keys` does with an identifier where a key may stand: before `:`, before `=`, and
-- before anything else.
use chitin_model_api.Lenient.Chars.{
  is_whitespace, is_alphabetic, is_alphanumeric, starts_ident, is_ident,
}
use chitin_model_api.Lenient.Keys.Scan.{Stops, AllPass, span-append, quote_from-skip}
use chitin_model_api.Lenient.Keys.{key_round, ident_round, separator_round, quoted, quote_from}
use chitin_model_api.Prelude.Lists.{length}
use chitin_model_api.Prelude.Tests.{◌==◌}
use chitin_model_api.Prelude.Text.{Bytes}
use chitin_model_api.Prelude.{
  ℕ, zero, suc, ◌+◌, ◌≡◌, refl, ap, ◌∙◌, Bool, true, false, ◌||◌, [], ◌∷◌, ◌++◌, append_assoc,
  arith,
}

start_round :
    (b : ℕ) (s : Bytes) → starts_ident b ≡ true → key_round false true b s ≡ ident_round b s
unfolding key_round starts_ident is_alphabetic is_whitespace
start_round b s h = ground arith

ident_round-span :
    (b : ℕ) (ident space rest : Bytes)
    → AllPass is_ident ident
    → AllPass is_whitespace space
    → Stops is_ident (space ++ rest)
    → Stops is_whitespace rest
    → ident_round b (ident ++ (space ++ rest)) ≡ separator_round b ident space rest
unfolding ident_round
ident_round-span b ident space rest i w k l =
    rw (span-append is_ident ident (space ++ rest) i k, span-append is_whitespace space rest w l)
      refl

space-ident : (b : ℕ) → is_whitespace b ≡ true → is_ident b ≡ false
unfolding is_ident is_alphanumeric is_alphabetic is_whitespace
space-ident b h = ground arith

space-Stops :
    (space rest : Bytes)
    → AllPass is_whitespace space
    → Stops is_ident rest
    → Stops is_ident (space ++ rest)
space-Stops [] rest h k = k
space-Stops (b ∷ space) rest h k = space-ident b h.0

-- The hypotheses on an identifier and the whitespace behind it.
abbrev pub IsBareKey : ℕ → Bytes → Bytes → Type 0
IsBareKey b ident space =
    (starts_ident b ≡ true) × AllPass is_ident ident × AllPass is_whitespace space

separated :
    (b : ℕ) (ident space : Bytes) (sep : ℕ) (s : Bytes)
    → IsBareKey b ident space
    → is_ident sep ≡ false
    → is_whitespace sep ≡ false
    → key_round false true b (ident ++ (space ++ sep ∷ s)) ≡ separator_round b ident space (sep ∷ s)
separated b ident space sep s k i w =
    start_round b (ident ++ (space ++ sep ∷ s)) k.0
    ∙ ident_round-span b ident space (sep ∷ s) k.1 k.2 (space-Stops space (sep ∷ s) k.2 i) w

-- Before `:` it is quoted.
pub quote_from-colon :
    (b : ℕ) (ident space s : Bytes)
    → IsBareKey b ident space
    → quote_from 0 false true (b ∷ ident ++ (space ++ b':' ∷ s))
      ≡ quoted b ident ++ quote_from 0 false false (space ++ b':' ∷ s)
unfolding quote_from separator_round is_ident is_alphanumeric is_alphabetic is_whitespace
quote_from-colon b ident space s k =
    rw (separated b ident space b':' s k refl refl)
      (ap (quoted b ident ++◌) (quote_from-skip false false ident (space ++ b':' ∷ s)))

quote_from-ahead :
    (k n : ℕ) (xs s : Bytes)
    → k ≡ length xs + n
    → quote_from k false false (xs ++ s) ≡ quote_from n false false s
unfolding quote_from
quote_from-ahead k n [] s h = let e : k ≡ n = omega arith in ap (λ x. quote_from x false false s) e
quote_from-ahead zero n (x ∷ xs) s h = absurd (omega arith)
quote_from-ahead (suc k) n (x ∷ xs) s h = quote_from-ahead k n xs s (omega arith)

past_equals :
    (ident space s : Bytes) (c : ℕ)
    → quote_from (length ident + length space + 1) false false (ident ++ (space ++ c ∷ s))
      ≡ quote_from 0 false false s
unfolding quote_from
past_equals ident space s c =
    quote_from-ahead (length ident + length space + 1) (length space + 1) ident (space ++ c ∷ s)
      (omega arith)
    ∙ quote_from-ahead (length space + 1) 1 space (c ∷ s) (omega arith)

-- Before `=` it is quoted, and the `=` becomes `:`.
pub quote_from-equals :
    (b : ℕ) (ident space s : Bytes)
    → IsBareKey b ident space
    → quote_from 0 false true (b ∷ ident ++ (space ++ b'=' ∷ s))
      ≡ quoted b ident ++ (space ++ b':' ∷ quote_from 0 false false s)
unfolding quote_from separator_round is_ident is_alphanumeric is_alphabetic is_whitespace
quote_from-equals b ident space s k =
    rw (separated b ident space b'=' s k refl refl, past_equals ident space s b'=')
      (append_assoc (quoted b ident) (space ++ (b':' ∷ [])) (quote_from 0 false false s)
        ∙ ap (quoted b ident ++◌) (append_assoc space (b':' ∷ []) (quote_from 0 false false s)))

-- A byte that can neither go on an identifier nor make a key of it.
abbrev pub goes_on : ℕ → Bool
goes_on c = is_ident c || is_whitespace c || c == b':' || c == b'='

goes_on-ident : (s : Bytes) → Stops goes_on s → Stops is_ident s
goes_on-ident [] h = tt
goes_on-ident (c ∷ s) h = grind (arith, h)

goes_on-whitespace : (s : Bytes) → Stops goes_on s → Stops is_whitespace s
goes_on-whitespace [] h = tt
goes_on-whitespace (c ∷ s) h = grind (arith, h)

word_round :
    (b : ℕ) (ident s : Bytes)
    → AllPass is_ident ident
    → Stops goes_on s
    → ident_round b (ident ++ s) ≡ separator_round b ident [] s
word_round b ident s i k =
    ident_round-span b ident [] s i tt (goes_on-ident s k) (goes_on-whitespace s k)

word_separator :
    (b : ℕ) (ident s : Bytes)
    → Stops goes_on s
    → separator_round b ident [] s ≡ record {
      pushed = b ∷ ident;
      skipped = length ident;
      in_string = false;
      prev_was_open_or_comma = false;
    }
unfolding separator_round
word_separator b ident [] k = refl
word_separator b ident (c ∷ s) k = ground (arith, k)

-- Before anything else it is copied.
pub quote_from-word :
    (b : ℕ) (ident s : Bytes)
    → starts_ident b ≡ true
    → AllPass is_ident ident
    → Stops goes_on s
    → quote_from 0 false true (b ∷ ident ++ s) ≡ b ∷ ident ++ quote_from 0 false false s
unfolding quote_from
quote_from-word b ident s h i k =
    rw (start_round b (ident ++ s) h, word_round b ident s i k, word_separator b ident s k)
      (ap (λ x. b ∷ ident ++ x) (quote_from-skip false false ident s))
