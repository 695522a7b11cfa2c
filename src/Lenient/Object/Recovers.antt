-- ===== src/Lenient/Object/Recovers.antt =====
-- What `lenient_parse_object` recovers.
use chitin_model_api.Lenient.Keys.Documents.{Json, IsJson, loose, strict, write}
use chitin_model_api.Lenient.Keys.Repairs.{quote_bare_keys-write}
use chitin_model_api.Lenient.Object.Panics.{attempts-some}
use chitin_model_api.Lenient.Object.{strict_attempts, lenient_parse_object}
use chitin_model_api.Lenient.Quotes.{Regexes}
use chitin_model_api.Lenient.Serde.{Serde}
use chitin_model_api.Prelude.Result.{ok}
use chitin_model_api.Prelude.Text.{Bytes}
use chitin_model_api.Prelude.{◌≡◌, refl, ap, ◌∙◌, some, []}

first_attempt :
    (serde : Serde) (regexes : Regexes) (text : Bytes) (v : serde.Value)
    → serde.from_str text ≡ some v
    → strict_attempts serde regexes text ≡ some v
unfolding strict_attempts
first_attempt serde regexes text v e = rw (e, strict_attempts) refl

-- A loosely written document is recovered as what serde_json reads in its strict text, if its strings
-- are ASCII.
pub lenient_parse_object-write :
    (serde : Serde) (regexes : Regexes) (x : Json) (v : serde.Value)
    → IsJson x
    → serde.from_str (write strict x []) ≡ some v
    → lenient_parse_object serde regexes (write loose x []) ≡ ok (some v)
lenient_parse_object-write serde regexes x v h e =
    attempts-some serde regexes (write loose x []) v (
      ap (strict_attempts serde regexes) (quote_bare_keys-write x h)
      ∙ first_attempt serde regexes (write strict x []) v e)
