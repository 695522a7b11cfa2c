-- ===== src/Lenient/Object/Panics.antt =====
-- When `lenient_parse_object` panics.
use chitin_model_api.Lenient.Keys.{quote_bare_keys}
use chitin_model_api.Lenient.Object.{
  Panic, slice_order, slice, key_and_value, quoted_key, with_key, rescue, strict_attempts,
  lenient_parse_object,
}
use chitin_model_api.Lenient.Quotes.{Regexes}
use chitin_model_api.Lenient.Serde.{Serde}
use chitin_model_api.Lenient.Trim.{starts_with, ends_with}
use chitin_model_api.Prelude.Lists.{length}
use chitin_model_api.Prelude.Result.{Result, ok, err, ◌>>=◌, Result-cases}
use chitin_model_api.Prelude.Tests.{ltb, ◌==◌, ==_iff, Bool-cases, Option-cases}
use chitin_model_api.Prelude.Text.{Bytes}
use chitin_model_api.Prelude.{
  ℕ, ◌-◌, ◌≡◌, refl, ap, ◌∙◌, ◌↔◌, inl, inr, Bool, true, false, not, ◌||◌, none, some, [], ◌∷◌,
  arith,
}

abbrev failed : {A : Type 0} → Result Panic A → Bool
failed (ok a) = false
failed (err e) = true

-- A part that stands between two quotes is cut without a panic.
key_of_long : (b c : ℕ) (s : Bytes) → failed (quoted_key (b ∷ c ∷ s)) ≡ false
unfolding quoted_key slice
key_of_long b c s =
    let long : ltb (length (b ∷ c ∷ s) - 1) 1 ≡ false = ground arith in
    elim (Bool-cases (not (starts_with b'"' (b ∷ c ∷ s)) || not (ends_with b'"' (b ∷ c ∷ s)))) [
      | inl e ↦ rw e refl
      | inr e ↦ rw (e, long) refl
    ]

key_of_single : (b : ℕ) → failed (quoted_key (b ∷ [])) ≡ (b == b'"')
unfolding quoted_key slice starts_with ends_with
key_of_single b = ground arith

-- Only a part that is one quote is cut the wrong way round.
quoted_key-fails : (p : Bytes) → failed (quoted_key p) ≡ true → p ≡ b'"' ∷ []
unfolding quoted_key
quoted_key-fails [] h = absurd (cc h)
quoted_key-fails (b ∷ []) h =
    let e = (==_iff b b'"').0 (rw (key_of_single b) at h) in ap (λ x. x ∷ []) e
quoted_key-fails (b ∷ c ∷ s) h = absurd (cc (h, key_of_long b c s))

failed-err : {A : Type 0} (r : Result Panic A) → failed r ≡ true → r ≡ err slice_order
failed-err (ok a) h = absurd (cc h)
failed-err (err slice_order) h = refl

-- The text is cut at its first colon into a lone quote and something.
abbrev pub LoneQuote : Bytes → Type 0
LoneQuote text = (behind : Bytes) × (key_and_value text ≡ some (b'"' ∷ [], behind))

module _ (serde : Serde) (regexes : Regexes) where
  failed-bind :
      (p v : Bytes)
      → failed (quoted_key p >>= λ key. ok (with_key serde regexes v key)) ≡ failed (quoted_key p)
  failed-bind p v = elim (Result-cases (quoted_key p)) [
    | inl (a, e) ↦ rw e refl
    | inr (x, e) ↦ rw e refl
  ]

  rescue-none : (text : Bytes) → key_and_value text ≡ none → rescue serde regexes text ≡ ok none
  unfolding rescue
  rescue-none text e = rw (e, rescue) refl

  pub rescue-some :
      (text p v : Bytes)
      → key_and_value text ≡ some (p, v)
      → rescue serde regexes text ≡ quoted_key p >>= λ key. ok (with_key serde regexes v key)
  unfolding rescue
  rescue-some text p v e = rw (e, rescue) refl

  rescue-fails : (text : Bytes) → failed (rescue serde regexes text) ≡ true → LoneQuote text
  rescue-fails text h = elim (Option-cases (key_and_value text)) [
    | inl e ↦ absurd (cc (h, rescue-none text e))
    | inr ((p, v), e) ↦
        let k : failed (quoted_key p) ≡ true = cc (h, rescue-some text p v e, failed-bind p v) in
        (v, e ∙ ap (λ x. some (x, v)) (quoted_key-fails p k))
  ]

  rescue-panics : (text : Bytes) → LoneQuote text → rescue serde regexes text ≡ err slice_order
  unfolding rescue quoted_key slice starts_with ends_with
  rescue-panics text (v, e) = rw (e, rescue) refl

  pub attempts-none :
      (raw : Bytes)
      → strict_attempts serde regexes (quote_bare_keys raw) ≡ none
      → lenient_parse_object serde regexes raw ≡ rescue serde regexes (quote_bare_keys raw)
  unfolding lenient_parse_object
  attempts-none raw e = rw (e, lenient_parse_object) refl

  pub attempts-some :
      (raw : Bytes) (v : serde.Value)
      → strict_attempts serde regexes (quote_bare_keys raw) ≡ some v
      → lenient_parse_object serde regexes raw ≡ ok (some v)
  unfolding lenient_parse_object
  attempts-some raw v e = rw (e, lenient_parse_object) refl

-- The recovery panics exactly if no strict attempt succeeds and the key part is one lone quote.
pub lenient_parse_object-panics_iff :
    (serde : Serde) (regexes : Regexes) (raw : Bytes)
    → (lenient_parse_object serde regexes raw ≡ err slice_order) ↔ (
        (strict_attempts serde regexes (quote_bare_keys raw) ≡ none)
        × LoneQuote (quote_bare_keys raw))
lenient_parse_object-panics_iff serde regexes raw = (
  λ h. elim (Option-cases (strict_attempts serde regexes (quote_bare_keys raw))) [
    | inl e ↦ (
      e,
      rescue-fails serde regexes (quote_bare_keys raw) (cc (h, attempts-none serde regexes raw e)),
    )
    | inr (v, e) ↦
        let a : failed (lenient_parse_object serde regexes raw) ≡ true = cc h in
        absurd (cc (a, attempts-some serde regexes raw v e))
  ],
  λ (e, l). attempts-none serde regexes raw e ∙ rescue-panics serde regexes (quote_bare_keys raw) l,
)
