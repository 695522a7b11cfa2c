-- ===== src/Lenient/Quotes.antt =====
-- `un_escape_structural_quotes` of gemma_utils/src/json_lenient.rs. The regex crate is a parameter:
-- for each of the three expressions, the matches in a text in order, each with its start.
pub mod Drops
use chitin_model_api.Lenient.Trim.{contains}
use chitin_model_api.Prelude.Lists.{take, drop}
use chitin_model_api.Prelude.Tests.{ltb, leb, ◌==◌, if◌then◌else◌}
use chitin_model_api.Prelude.Text.{Bytes, bytes_eq, is_empty}
use chitin_model_api.Prelude.{
  ℕ, ◌+◌, ◌-◌, Bool, true, false, ◌&&◌, Option, none, some, List, [], ◌∷◌, ◌++◌,
}

pub record Match : Type 0 where
  pub start : ℕ
  pub text : Bytes

pub record Regexes : Type 0 where
  pub structural_kv_pair : Bytes → List Match
  pub structural_value_close_then_key : Bytes → List Match
  pub structural_value_close : Bytes → List Match

-- Where `\"` stands in a match, given where the bytes start.
unfoldable pub collect : ℕ → Bytes → List ℕ
collect at [] = []
collect at (b ∷ []) = []
collect at (b ∷ c ∷ s) = elim (b == b'\\' && c == b'"') [
  | true ↦ at ∷ collect (at + 2) s
  | false ↦ collect (at + 1) (c ∷ s)
]

unfoldable pub collect_all : List Match → List ℕ
unfolding collect
collect_all [] = []
collect_all (m ∷ ms) = collect m.start m.text ++ collect_all ms

-- `sort_unstable` and `dedup`.
unfoldable pub insert_position : ℕ → List ℕ → List ℕ
insert_position n [] = n ∷ []
insert_position n (m ∷ ms) =
    let rest = insert_position n ms in if leb n m then n ∷ m ∷ ms else m ∷ rest

unfoldable pub sort_positions : List ℕ → List ℕ
unfolding insert_position
sort_positions [] = []
sort_positions (n ∷ ns) = insert_position n (sort_positions ns)

unfoldable pub dedup : List ℕ → List ℕ
dedup [] = []
dedup (n ∷ []) = n ∷ []
dedup (n ∷ m ∷ ms) = let rest = dedup (m ∷ ms) in if n == m then rest else n ∷ rest

-- The rewriting; the number is `cursor`.
unfoldable pub rewritten : Bytes → ℕ → List ℕ → Bytes
rewritten raw cursor [] = drop cursor raw
rewritten raw cursor (pos ∷ ps) = elim (ltb pos cursor) [
  | true ↦ rewritten raw cursor ps
  | false ↦ take (pos - cursor) (drop cursor raw) ++ b'"' ∷ rewritten raw (pos + 2) ps
]

module _ (regexes : Regexes) where
  unfoldable pub to_unescape : Bytes → List ℕ
  unfolding collect_all
  to_unescape raw =
      collect_all (regexes.structural_kv_pair raw)
      ++ (collect_all (regexes.structural_value_close_then_key raw)
          ++ collect_all (regexes.structural_value_close raw))

  unfoldable pub un_escape_structural_quotes : Bytes → Option Bytes
  unfolding to_unescape sort_positions dedup rewritten contains bytes_eq is_empty
  un_escape_structural_quotes raw =
      let positions = to_unescape raw in
      let out = rewritten raw 0 (dedup (sort_positions positions)) in
      if contains (b'\\' ∷ b'"' ∷ []) raw
      then if is_empty positions then none else if bytes_eq out raw then none else some out
      else none
