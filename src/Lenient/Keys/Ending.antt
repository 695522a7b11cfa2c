-- ===== src/Lenient/Keys/Ending.antt =====
-- What a written document ends with.
use chitin_model_api.Lenient.Keys.Documents.{
  Key, in_quotes, before_colon, before_equals, Json, word, number, string, array, object, Items,
  no_items, item, Fields, no_fields, field, Style, loose, strict, write_key, write, write_items,
  more_items, write_fields, more_fields,
}
use chitin_model_api.Lenient.Keys.Scan.{string_text}
use chitin_model_api.Lenient.Keys.{quoted}
use chitin_model_api.Lenient.Trim.Same.{Ends, Ends-cons, Ends-append}
use chitin_model_api.Prelude.Text.{Bytes}
use chitin_model_api.Prelude.{ℕ, ◌∷◌}

write_key-Ends :
    (c : ℕ) (style : Style) (key : Key) (s : Bytes) → Ends c s → Ends c (write_key style key s)
write_key-Ends c style (in_quotes cs space) s h =
    Ends-append c (string_text cs) _ (Ends-append c space _ (Ends-cons b':' c s h))
write_key-Ends c loose (before_colon b ident space) s h =
    Ends-append c (b ∷ ident) _ (Ends-append c space _ (Ends-cons b':' c s h))
write_key-Ends c loose (before_equals b ident space) s h =
    Ends-append c (b ∷ ident) _ (Ends-append c space _ (Ends-cons b'=' c s h))
write_key-Ends c strict (before_colon b ident space) s h =
    Ends-append c (quoted b ident) _ (Ends-append c space _ (Ends-cons b':' c s h))
write_key-Ends c strict (before_equals b ident space) s h =
    Ends-append c (quoted b ident) _ (Ends-append c space _ (Ends-cons b':' c s h))

-- Every writer puts its text in front, so the end stays.
mutual
  unfolding write

  write-Ends : (c : ℕ) (style : Style) (x : Json) (s : Bytes) → Ends c s → Ends c (write style x s)
  write-Ends c style (word b bs) s h = Ends-append c (b ∷ bs) s h
  write-Ends c style (number b bs) s h = Ends-append c (b ∷ bs) s h
  write-Ends c style (string cs) s h = Ends-append c (string_text cs) s h
  write-Ends c style (array xs) s h =
      Ends-cons b'[' c _ (write_items-Ends c style xs (b']' ∷ s) (Ends-cons b']' c s h))
  write-Ends c style (object fs) s h =
      Ends-cons b'{' c _ (write_fields-Ends c style fs (b'}' ∷ s) (Ends-cons b'}' c s h))

  write_items-Ends :
      (c : ℕ) (style : Style) (xs : Items) (s : Bytes) → Ends c s → Ends c (write_items style xs s)
  write_items-Ends c style no_items s h = h
  write_items-Ends c style (item space x xs) s h =
      Ends-append c space _
        (write-Ends c style x (more_items style xs s) (more_items-Ends c style xs s h))

  more_items-Ends :
      (c : ℕ) (style : Style) (xs : Items) (s : Bytes) → Ends c s → Ends c (more_items style xs s)
  more_items-Ends c style no_items s h = h
  more_items-Ends c style (item space x xs) s h =
      Ends-append c (b',' ∷ space) _
        (write-Ends c style x (more_items style xs s) (more_items-Ends c style xs s h))

  pub write_fields-Ends :
      (c : ℕ) (style : Style) (fs : Fields) (s : Bytes)
      → Ends c s
      → Ends c (write_fields style fs s)
  write_fields-Ends c style no_fields s h = h
  write_fields-Ends c style (field before key space x fs) s h = Ends-append c before _ (
      write_key-Ends c style key _ (
        Ends-append c space _
          (write-Ends c style x (more_fields style fs s) (more_fields-Ends c style fs s h))))

  more_fields-Ends :
      (c : ℕ) (style : Style) (fs : Fields) (s : Bytes) → Ends c s → Ends c (more_fields style fs s)
  more_fields-Ends c style no_fields s h = h
  more_fields-Ends c style (field before key space x fs) s h = Ends-append c (b',' ∷ before) _ (
      write_key-Ends c style key _ (
        Ends-append c space _
          (write-Ends c style x (more_fields style fs s) (more_fields-Ends c style fs s h))))
