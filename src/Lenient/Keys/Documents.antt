-- ===== src/Lenient/Keys/Documents.antt =====
-- The texts that the doc comments of gemma_utils/src/json_lenient.rs speak of: JSON documents in
-- which an object's key may be a bare identifier before `:` or `=`, and how they are written, loosely
-- as the model does and strictly as JSON wants. They are a description beside the code, with
-- whitespace in front of a value, of a key and of its separator.
use chitin_model_api.Lenient.Chars.{is_whitespace, starts_ident, is_ident}
use chitin_model_api.Lenient.Keys.Scan.{AllPass, StringChar, IsStringChar, string_text}
use chitin_model_api.Lenient.Keys.Idents.{IsBareKey}
use chitin_model_api.Lenient.Keys.{quoted}
use chitin_model_api.Prelude.Lists.{All}
use chitin_model_api.Prelude.Tests.{leb, ◌==◌}
use chitin_model_api.Prelude.Text.{Bytes}
use chitin_model_api.Prelude.{ℕ, ◌≡◌, Bool, true, false, ◌&&◌, ◌||◌, List, ◌∷◌, ◌++◌}

-- A key with the whitespace behind it. A bare one is its first byte and the others.
pub data Key : Type 0 where
  in_quotes : List StringChar → Bytes → Key
  before_colon before_equals : ℕ → Bytes → Bytes → Key

-- `word` is a literal such as `true`. A piece of whitespace stands in front of each item and field,
-- and of a field's value.
mutual
  pub data Json : Type 0 where
    word number : ℕ → Bytes → Json
    string : List StringChar → Json
    array : Items → Json
    object : Fields → Json

  pub data Items : Type 0 where
    no_items : Items
    item : Bytes → Json → Items → Items

  pub data Fields : Type 0 where
    no_fields : Fields
    field : Bytes → Key → Bytes → Json → Fields → Fields

pub data Style : Type 0 where
  loose strict : Style

-- A writer puts the text in front of what follows.
abbrev pub write_key : Style → Key → Bytes → Bytes
write_key style (in_quotes cs space) s = string_text cs ++ (space ++ b':' ∷ s)
write_key loose (before_colon b ident space) s = b ∷ ident ++ (space ++ b':' ∷ s)
write_key loose (before_equals b ident space) s = b ∷ ident ++ (space ++ b'=' ∷ s)
write_key strict (before_colon b ident space) s = quoted b ident ++ (space ++ b':' ∷ s)
write_key strict (before_equals b ident space) s = quoted b ident ++ (space ++ b':' ∷ s)

unfoldable mutual
  pub write : Style → Json → Bytes → Bytes
  write style (word b bs) s = b ∷ bs ++ s
  write style (number b bs) s = b ∷ bs ++ s
  write style (string cs) s = string_text cs ++ s
  write style (array xs) s = b'[' ∷ write_items style xs (b']' ∷ s)
  write style (object fs) s = b'{' ∷ write_fields style fs (b'}' ∷ s)

  pub write_items : Style → Items → Bytes → Bytes
  write_items style no_items s = s
  write_items style (item space x xs) s = space ++ write style x (more_items style xs s)

  pub more_items : Style → Items → Bytes → Bytes
  more_items style no_items s = s
  more_items style (item space x xs) s = b',' ∷ space ++ write style x (more_items style xs s)

  pub write_fields : Style → Fields → Bytes → Bytes
  write_fields style no_fields s = s
  write_fields style (field before key space x fs) s =
      before ++ write_key style key (space ++ write style x (more_fields style fs s))

  pub more_fields : Style → Fields → Bytes → Bytes
  more_fields style no_fields s = s
  more_fields style (field before key space x fs) s =
      b',' ∷ before ++ write_key style key (space ++ write style x (more_fields style fs s))

abbrev pub is_number : ℕ → Bool
is_number b =
    leb b'0' b && leb b b'9' || b == b'+' || b == b'-' || b == b'.' || b == b'e' || b == b'E'

abbrev pub IsKey : Key → Type 0
IsKey (in_quotes cs space) = All IsStringChar cs × AllPass is_whitespace space
IsKey (before_colon b ident space) = IsBareKey b ident space
IsKey (before_equals b ident space) = IsBareKey b ident space

unfoldable mutual
  pub IsJson : Json → Type 0
  IsJson (word b bs) = (starts_ident b ≡ true) × AllPass is_ident bs
  IsJson (number b bs) = (is_number b ≡ true) × (starts_ident b ≡ false) × AllPass is_number bs
  IsJson (string cs) = All IsStringChar cs
  IsJson (array xs) = AreItems xs
  IsJson (object fs) = AreFields fs

  pub AreItems : Items → Type 0
  AreItems no_items = Unit
  AreItems (item space x xs) = AllPass is_whitespace space × IsJson x × AreItems xs

  pub AreFields : Fields → Type 0
  AreFields no_fields = Unit
  AreFields (field before key space x fs) =
      AllPass is_whitespace before
      × IsKey key
      × AllPass is_whitespace space
      × IsJson x
      × AreFields fs
