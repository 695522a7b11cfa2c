-- ===== src/Lenient/Keys/Repairs.antt =====
-- `quote_bare_keys` on loosely written JSON.
use chitin_model_api.Lenient.Chars.{
  is_whitespace, is_alphabetic, is_alphanumeric, starts_ident, is_ident,
}
use chitin_model_api.Lenient.Keys.Documents.{
  Key, in_quotes, before_colon, before_equals, Json, word, number, string, array, object, Items,
  no_items, item, Fields, no_fields, field, loose, strict, write_key, write, write_items,
  more_items, write_fields, more_fields, is_number, IsKey, IsJson, AreItems, AreFields,
}
use chitin_model_api.Lenient.Keys.Idents.{
  goes_on, quote_from-colon, quote_from-equals, quote_from-word,
}
use chitin_model_api.Lenient.Keys.Scan.{
  Stops, AllPass, is_plain, quote_from-space, quote_from-plain, quote_from-mark, quote_from-open,
  quote_from-string, string_text,
}
use chitin_model_api.Lenient.Keys.{quoted, quote_from, quote_bare_keys}
use chitin_model_api.Prelude.Tests.{◌==◌}
use chitin_model_api.Prelude.Text.{Bytes}
use chitin_model_api.Prelude.{ℕ, ◌≡◌, refl, ap, ◌∙◌, Bool, true, false, ◌||◌, [], ◌∷◌, ◌++◌, arith}

-- What the scan makes of a text from a place outside strings, and behind something.
abbrev from : Bool → Bytes → Bytes
from = quote_from 0 false

number-plain : (b : ℕ) → is_number b ≡ true → is_plain b ≡ true
unfolding is_whitespace
number-plain b h = ground arith

numbers-plain : (bs : Bytes) → AllPass is_number bs → AllPass is_plain bs
numbers-plain [] h = tt
numbers-plain (b ∷ bs) h = (number-plain b h.0, numbers-plain bs h.1)

from-number :
    (p : Bool) (b : ℕ) (bs s : Bytes)
    → is_number b ≡ true
    → starts_ident b ≡ false
    → AllPass is_number bs
    → from p (b ∷ bs ++ s) ≡ b ∷ bs ++ from false s
from-number p b bs s h k l =
    quote_from-mark p b (bs ++ s) (number-plain b h) k
    ∙ ap (◌∷◌ b) (quote_from-plain bs s (numbers-plain bs l))

word_byte-plain : (b : ℕ) → is_ident b ≡ true → is_plain b ≡ true
unfolding is_whitespace is_ident is_alphanumeric is_alphabetic
word_byte-plain b h = ground arith

words-plain : (bs : Bytes) → AllPass is_ident bs → AllPass is_plain bs
words-plain [] h = tt
words-plain (b ∷ bs) h = (word_byte-plain b h.0, words-plain bs h.1)

starts-is_ident : (b : ℕ) → starts_ident b ≡ true → is_ident b ≡ true
unfolding starts_ident is_ident is_alphanumeric is_alphabetic
starts-is_ident b h = ground arith

from-word :
    (p : Bool) (b : ℕ) (bs s : Bytes)
    → starts_ident b ≡ true
    → AllPass is_ident bs
    → Stops goes_on s
    → from p (b ∷ bs ++ s) ≡ b ∷ bs ++ from false s
from-word true b bs s h k l = quote_from-word b bs s h k l
from-word false b bs s h k l =
    quote_from-plain (b ∷ bs) s (words-plain (b ∷ bs) (starts-is_ident b h, k))

-- Whitespace and then `:`.
from-colon :
    (space s : Bytes)
    → AllPass is_whitespace space
    → from false (space ++ b':' ∷ s) ≡ space ++ b':' ∷ from false s
unfolding is_whitespace starts_ident is_alphabetic
from-colon space s h =
    quote_from-space false space (b':' ∷ s) h
    ∙ ap (space ++◌) (quote_from-mark false b':' s refl refl)

from-key :
    (key : Key) (s : Bytes)
    → IsKey key
    → from true (write_key loose key s) ≡ write_key strict key (from false s)
from-key (in_quotes cs space) s h =
    quote_from-string true cs (space ++ b':' ∷ s) h.0
    ∙ ap (string_text cs ++◌) (from-colon space s h.1)
from-key (before_colon b ident space) s h =
    quote_from-colon b ident space s h ∙ ap (quoted b ident ++◌) (from-colon space s h.2)
from-key (before_equals b ident space) s h = quote_from-equals b ident space s h

-- Whitespace and then a value, or a key.
spaced :
    (p : Bool) (t : Bytes) {u : Bytes} (space : Bytes)
    → AllPass is_whitespace space
    → from p t ≡ u
    → from p (space ++ t) ≡ space ++ u
spaced p t space h e = quote_from-space p space t h ∙ ap (space ++◌) e

marked :
    (p : Bool) (t : Bytes) {u : Bytes} (b : ℕ)
    → is_plain b ≡ true
    → starts_ident b ≡ false
    → from false t ≡ u
    → from p (b ∷ t) ≡ b ∷ u
marked p t b h k e = quote_from-mark p b t h k ∙ ap (◌∷◌ b) e

opened :
    (p : Bool) (t : Bytes) {u : Bytes} (b : ℕ)
    → (b == b'{' || b == b',') ≡ true
    → from true t ≡ u
    → from p (b ∷ t) ≡ b ∷ u
opened p t b h e = quote_from-open p b t h ∙ ap (◌∷◌ b) e

more_items-Stops : (xs : Items) (s : Bytes) → Stops goes_on (more_items loose xs (b']' ∷ s))
unfolding write is_whitespace is_ident is_alphanumeric is_alphabetic
more_items-Stops no_items s = refl
more_items-Stops (item space x xs) s = refl

more_fields-Stops : (fs : Fields) (s : Bytes) → Stops goes_on (more_fields loose fs (b'}' ∷ s))
unfolding write is_whitespace is_ident is_alphanumeric is_alphabetic
more_fields-Stops no_fields s = refl
more_fields-Stops (field before key space x fs) s = refl

from-field :
    (key : Key) (space t : Bytes) {u : Bytes}
    → IsKey key
    → AllPass is_whitespace space
    → from false t ≡ u
    → from true (write_key loose key (space ++ t)) ≡ write_key strict key (space ++ u)
from-field key space t k h e =
    from-key key (space ++ t) k ∙ ap (write_key strict key) (spaced false t space h e)

mutual
  unfolding write IsJson is_whitespace starts_ident is_alphabetic

  from-write :
      (p : Bool) (x : Json) (s : Bytes)
      → IsJson x
      → Stops goes_on s
      → from p (write loose x s) ≡ write strict x (from false s)
  from-write p (word b bs) s h k = from-word p b bs s h.0 h.1 k
  from-write p (number b bs) s h k = from-number p b bs s h.0 h.1 h.2
  from-write p (string cs) s h k = quote_from-string p cs s h
  from-write p (array xs) s h k = marked _ _ b'[' refl refl (from-write_items xs s h)
  from-write p (object fs) s h k = opened _ _ b'{' refl (from-write_fields fs s h)

  from-write_items :
      (xs : Items) (s : Bytes)
      → AreItems xs
      → from false (write_items loose xs (b']' ∷ s)) ≡ write_items strict xs (b']' ∷ from false s)
  from-write_items no_items s h = marked _ _ b']' refl refl refl
  from-write_items (item space x xs) s h = spaced _ _ space h.0 (
      from-write false x (more_items loose xs (b']' ∷ s)) h.1 (more_items-Stops xs s)
      ∙ ap (write strict x) (from-more_items xs s h.2))

  from-more_items :
      (xs : Items) (s : Bytes)
      → AreItems xs
      → from false (more_items loose xs (b']' ∷ s)) ≡ more_items strict xs (b']' ∷ from false s)
  from-more_items no_items s h = marked _ _ b']' refl refl refl
  from-more_items (item space x xs) s h = opened _ _ b',' refl (
      spaced _ _ space h.0 (
        from-write true x (more_items loose xs (b']' ∷ s)) h.1 (more_items-Stops xs s)
        ∙ ap (write strict x) (from-more_items xs s h.2)))

  from-write_fields :
      (fs : Fields) (s : Bytes)
      → AreFields fs
      → from true (write_fields loose fs (b'}' ∷ s)) ≡ write_fields strict fs (b'}' ∷ from false s)
  from-write_fields no_fields s h = marked _ _ b'}' refl refl refl
  from-write_fields (field before key space x fs) s h = spaced _ _ before h.0 (
      from-field key space _ h.1 h.2 (
        from-write false x (more_fields loose fs (b'}' ∷ s)) h.3 (more_fields-Stops fs s)
        ∙ ap (write strict x) (from-more_fields fs s h.4)))

  from-more_fields :
      (fs : Fields) (s : Bytes)
      → AreFields fs
      → from false (more_fields loose fs (b'}' ∷ s)) ≡ more_fields strict fs (b'}' ∷ from false s)
  from-more_fields no_fields s h = marked _ _ b'}' refl refl refl
  from-more_fields (field before key space x fs) s h = opened _ _ b',' refl (
      spaced _ _ before h.0 (
        from-field key space _ h.1 h.2 (
          from-write false x (more_fields loose fs (b'}' ∷ s)) h.3 (more_fields-Stops fs s)
          ∙ ap (write strict x) (from-more_fields fs s h.4))))

-- Loosely written JSON, with bare keys before `:` or `=` at any depth, becomes the strict text of the
-- same document, if its strings are ASCII; a document without bare keys comes back as it was.
pub quote_bare_keys-write :
    (x : Json) → IsJson x → quote_bare_keys (write loose x []) ≡ write strict x []
unfolding quote_bare_keys
quote_bare_keys-write x h = from-write false x [] h tt
