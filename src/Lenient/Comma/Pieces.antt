-- ===== src/Lenient/Comma/Pieces.antt =====
-- The pieces of a text as `has_top_level_comma` should see them: string literals, brackets and other
-- bytes, described without an index.
use chitin_model_api.Lenient.Keys.Scan.{StringChar, plain, escaped, body}
use chitin_model_api.Prelude.Lists.{All}
use chitin_model_api.Prelude.Tests.{◌==◌}
use chitin_model_api.Prelude.Text.{Bytes}
use chitin_model_api.Prelude.{ℕ, suc, ◌≡◌, Bool, true, false, ◌||◌, List, [], ◌∷◌, ◌++◌}

pub data Piece : Type 0 where
  literal : List StringChar → Piece
  opening closing other : ℕ → Piece

abbrev pub piece_text : Piece → Bytes → Bytes
piece_text (literal cs) s = b'"' ∷ body cs ++ b'"' ∷ s
piece_text (opening b) s = b ∷ s
piece_text (closing b) s = b ∷ s
piece_text (other b) s = b ∷ s

-- The text of the pieces in front of another text.
abbrev pub in_front : List Piece → Bytes → Bytes
in_front [] s = s
in_front (p ∷ ps) s = piece_text p (in_front ps s)

-- The opening and the closing brackets among the pieces.
unfoldable pub opened : List Piece → ℕ
opened [] = 0
opened (opening b ∷ ps) = suc (opened ps)
opened (literal cs ∷ ps) = opened ps
opened (closing b ∷ ps) = opened ps
opened (other b ∷ ps) = opened ps

unfoldable pub closed : List Piece → ℕ
closed [] = 0
closed (closing b ∷ ps) = suc (closed ps)
closed (literal cs ∷ ps) = closed ps
closed (opening b ∷ ps) = closed ps
closed (other b ∷ ps) = closed ps

abbrev pub IsLiteralChar : StringChar → Type 0
IsLiteralChar (plain b) = (b == b'"' || b == b'\\') ≡ false
IsLiteralChar (escaped c) = Unit

abbrev pub is_opening : ℕ → Bool
is_opening b = b == b'[' || b == b'{'

abbrev pub is_closing : ℕ → Bool
is_closing b = b == b']' || b == b'}'

abbrev pub IsPiece : Piece → Type 0
IsPiece (literal cs) = All IsLiteralChar cs
IsPiece (opening b) = is_opening b ≡ true
IsPiece (closing b) = is_closing b ≡ true
IsPiece (other b) = (b == b'"' || is_opening b || is_closing b) ≡ false

-- The text splits into pieces and a comma before which as many brackets have closed as have opened.
abbrev pub TopLevelComma : Bytes → Type 0
TopLevelComma s =
    (ps : List Piece) × (rest : Bytes) × All IsPiece ps
    × (s ≡ in_front ps (b',' ∷ rest))
    × (opened ps ≡ closed ps)
