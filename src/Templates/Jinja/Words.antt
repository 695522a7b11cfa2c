-- ===== src/Templates/Jinja/Words.antt =====
-- The type words of tool parameters.
use chitin_model_api.Prelude.Tests.{if◌then◌else◌}
use chitin_model_api.Prelude.Text.{Bytes, codes, bytes_eq, lowercase, lowercase-lowercase}
use chitin_model_api.Prelude.{◌≡◌, ◌⊎◌, refl, ap, ◌∙◌, inl, inr, Bool, true, false}
use chitin_model_api.Templates.Jinja.{one_of, word_of, json_schema_type}

-- A word that stays, or the one that was looked up.
abbrev Settled : Bytes → Bytes → Type 0
Settled w r = (json_schema_type r ≡ r) ⊎ (r ≡ w)

if-Settled :
    (w : Bytes) (b : Bool) (x y : Bytes)
    → Settled w x
    → Settled w y
    → Settled w (if b then x else y)
if-Settled w true x y h k = h
if-Settled w false x y h k = k

word_of-Settled : (w : Bytes) → Settled w (word_of w)
unfolding word_of json_schema_type one_of lowercase bytes_eq
word_of-Settled w = if-Settled w _ (codes "string") _ (inl refl) (
    if-Settled w _ (codes "integer") _ (inl refl) (
      if-Settled w _ (codes "number") _ (inl refl) (
        if-Settled w _ (codes "boolean") _ (inl refl) (
          if-Settled w _ (codes "array") _ (inl refl)
            (if-Settled w _ (codes "object") w (inl refl) (inr refl))))))

-- A type word that was made canonical stays as it is.
pub json_schema_type-json_schema_type :
    (raw : Bytes) → json_schema_type (json_schema_type raw) ≡ json_schema_type raw
unfolding json_schema_type
json_schema_type-json_schema_type raw = elim (word_of-Settled (lowercase raw)) [
  | inl e ↦ e
  | inr e ↦ ap (λ w. word_of (lowercase w)) e ∙ ap word_of (lowercase-lowercase raw)
]
