-- ===== src/Lenient/Comma/Found.antt =====
-- What `has_top_level_comma` finds among the pieces of a text.
use chitin_model_api.Lenient.Comma.Pieces.{
  Piece, literal, opening, closing, other, piece_text, in_front, opened, closed, IsLiteralChar,
  is_opening, is_closing, IsPiece, TopLevelComma,
}
use chitin_model_api.Lenient.Comma.{increment, decrement, past, comma_from, has_top_level_comma}
use chitin_model_api.Lenient.Keys.Scan.{StringChar, plain, escaped, body}
use chitin_model_api.Prelude.Lists.{All, length, length-append}
use chitin_model_api.Prelude.Tests.{◌==◌, ==_iff, Bool-cases, both_true}
use chitin_model_api.Prelude.Text.{Bytes}
use chitin_model_api.Prelude.{
  ℕ, ◌+◌, ◌*◌, ◌%◌, ◌≤◌, ◌<◌, ◌≡◌, refl, ap, ◌∙◌, ◌↔◌, inl, inr, Bool, true, false, ◌&&◌, List, [],
  ◌∷◌, ◌++◌, arith,
}

-- The depth behind the pieces, as the loop counts it.
unfoldable pub level : ℕ → List Piece → ℕ
level d [] = d
level d (literal cs ∷ ps) = level d ps
level d (opening b ∷ ps) = level (increment d) ps
level d (closing b ∷ ps) = level (decrement d) ps
level d (other b ∷ ps) = level d ps

-- The text splits into pieces and a comma that they leave at depth 0.
abbrev CommaAt : ℕ → Bytes → Type 0
CommaAt d s =
    (ps : List Piece) × (rest : Bytes) × All IsPiece ps
    × (s ≡ in_front ps (b',' ∷ rest))
    × (level d ps ≡ 0)

plain_char :
    (d b : ℕ) (s : Bytes)
    → IsLiteralChar (plain b)
    → comma_from 0 d true (b ∷ s) ≡ comma_from 0 d true s
unfolding comma_from
plain_char d b [] h = refl
plain_char d b (c ∷ s) h = ground (arith, h)

-- Through the rest of a string literal.
comma_from-body :
    (d : ℕ) (cs : List StringChar) (s : Bytes)
    → All IsLiteralChar cs
    → comma_from 0 d true (body cs ++ b'"' ∷ s) ≡ comma_from 0 d false s
unfolding comma_from body
comma_from-body d [] [] h = refl
comma_from-body d [] (b ∷ s) h = refl
comma_from-body d (plain b ∷ cs) s h =
    plain_char d b (body cs ++ b'"' ∷ s) h.0 ∙ comma_from-body d cs s h.1
comma_from-body d (escaped c ∷ cs) s h = comma_from-body d cs s h.1

comma_from-in_front :
    (d : ℕ) (ps : List Piece) (rest : Bytes)
    → All IsPiece ps
    → level d ps ≡ 0
    → comma_from 0 d false (in_front ps (b',' ∷ rest)) ≡ true
unfolding level comma_from past
comma_from-in_front d [] rest h e = rw e refl
comma_from-in_front d (literal cs ∷ ps) rest h e =
    comma_from-body d cs (in_front ps (b',' ∷ rest)) h.0 ∙ comma_from-in_front d ps rest h.1 e
comma_from-in_front d (opening b ∷ ps) rest h e =
    ground (arith, comma_from-in_front (increment d) ps rest h.1 e, h.0)
comma_from-in_front d (closing b ∷ ps) rest h e =
    ground (arith, comma_from-in_front (decrement d) ps rest h.1 e, h.0)
comma_from-in_front d (other b ∷ ps) rest h e =
    ground (arith, comma_from-in_front d ps rest h.1 e, h.0)

-- The same from a place inside a string literal.
abbrev CommaBehind : Bool → ℕ → Bytes → Type 0
CommaBehind false d s = CommaAt d s
CommaBehind true d s =
    (cs : List StringChar) × (t : Bytes) × All IsLiteralChar cs
    × (s ≡ body cs ++ b'"' ∷ t)
    × CommaAt d t

at_quote :
    (d b : ℕ) (s : Bytes)
    → (b == b'"') ≡ true
    → comma_from 0 d false (b ∷ s) ≡ comma_from 0 d true s
unfolding comma_from past
at_quote d b s h = ground (arith, h)

at_opening :
    (d b : ℕ) (s : Bytes)
    → is_opening b ≡ true
    → comma_from 0 d false (b ∷ s) ≡ comma_from 0 (increment d) false s
unfolding comma_from past
at_opening d b s h = ground (arith, h)

at_closing :
    (d b : ℕ) (s : Bytes)
    → is_closing b ≡ true
    → comma_from 0 d false (b ∷ s) ≡ comma_from 0 (decrement d) false s
unfolding comma_from past
at_closing d b s h = ground (arith, h)

at_other :
    (d b : ℕ) (s : Bytes)
    → IsPiece (other b)
    → (b == b',' && d == 0) ≡ false
    → comma_from 0 d false (b ∷ s) ≡ comma_from 0 d false s
unfolding comma_from past
at_other d b s h k = ground (arith, h, k)

inside_backslash :
    (d : ℕ) (b c : ℕ) (s : Bytes)
    → (b == b'\\') ≡ true
    → comma_from 0 d true (b ∷ c ∷ s) ≡ comma_from 0 d true s
unfolding comma_from
inside_backslash d b c s h = ground (arith, h)

inside_quote :
    (d : ℕ) (b c : ℕ) (s : Bytes)
    → (b == b'"') ≡ true
    → comma_from 0 d true (b ∷ c ∷ s) ≡ comma_from 0 d false (c ∷ s)
unfolding comma_from
inside_quote d b c s h = ground (arith, h)

add_piece :
    (d : ℕ) {s : Bytes} (p : Piece) (d' : ℕ)
    → IsPiece p
    → ((ps : List Piece) → level d (p ∷ ps) ≡ level d' ps)
    → CommaAt d' s
    → CommaAt d (piece_text p s)
add_piece d p d' h e (ps, rest, hs, t, l) = (p ∷ ps, rest, (h, hs), ap (piece_text p) t, e ps ∙ l)

add_literal : (d b : ℕ) (s : Bytes) → (b == b'"') ≡ true → CommaBehind true d s → CommaAt d (b ∷ s)
unfolding level
add_literal d b s h (cs, t, hs, e, f) =
    let (ps, rest, i, g, l) = add_piece d (literal cs) d hs (λ ps. refl) f in
    (ps, rest, i, rw ((==_iff b b'"').0 h, e) g, l)

add_plain :
    (d b : ℕ) (s : Bytes)
    → IsLiteralChar (plain b)
    → CommaBehind true d s
    → CommaBehind true d (b ∷ s)
unfolding body
add_plain d b s h (cs, t, hs, e, f) = (plain b ∷ cs, t, (h, hs), ap (◌∷◌ b) e, f)

add_escaped :
    (d : ℕ) (b c : ℕ) (s : Bytes)
    → (b == b'\\') ≡ true
    → CommaBehind true d s
    → CommaBehind true d (b ∷ c ∷ s)
unfolding body
add_escaped d b c s h (cs, t, hs, e, f) =
    (escaped c ∷ cs, t, (tt, hs), rw ((==_iff b b'\\').0 h, e) refl, f)

split_here : (d b : ℕ) (s : Bytes) → (b == b',' && d == 0) ≡ true → CommaAt d (b ∷ s)
unfolding level
split_here d b s h =
    let (c, z) = both_true (b == b',') (d == 0) h in
    ([], s, tt, rw ((==_iff b b',').0 c) refl, (==_iff d 0).0 z)

comma_behind : (q : Bool) (d : ℕ) (s : Bytes) → comma_from 0 d q s ≡ true → CommaBehind q d s
unfolding level comma_from body
comma_behind true d [] h = absurd (cc h)
comma_behind false d [] h = absurd (cc h)
comma_behind true d (b ∷ []) h = absurd (cc h)
comma_behind true d (b ∷ c ∷ s) h = elim (Bool-cases (b == b'\\')) [
  | inl e ↦ add_escaped d b c s e (comma_behind true d s (rw (inside_backslash d b c s e) at h))
  | inr e ↦ elim (Bool-cases (b == b'"')) [
    | inl f ↦ (
      [],
      c ∷ s,
      tt,
      rw ((==_iff b b'"').0 f) refl,
      comma_behind false d (c ∷ s) (rw (inside_quote d b c s f) at h),
    )
    | inr f ↦
        let k : IsLiteralChar (plain b) = rw (f, e) refl in
        add_plain d b (c ∷ s) k (comma_behind true d (c ∷ s) (rw (plain_char d b (c ∷ s) k) at h))
  ]
]
comma_behind false d (b ∷ s) h = elim (Bool-cases (b == b'"')) [
  | inl e ↦ add_literal d b s e (comma_behind true d s (rw (at_quote d b s e) at h))
  | inr e ↦ elim (Bool-cases (is_opening b)) [
    | inl f ↦
        add_piece d (opening b) (increment d) f (λ ps. refl)
          (comma_behind false (increment d) s (rw (at_opening d b s f) at h))
    | inr f ↦ elim (Bool-cases (is_closing b)) [
      | inl g ↦
          add_piece d (closing b) (decrement d) g (λ ps. refl)
            (comma_behind false (decrement d) s (rw (at_closing d b s g) at h))
      | inr g ↦ elim (Bool-cases (b == b',' && d == 0)) [
        | inl i ↦ split_here d b s i
        | inr i ↦
            let k : IsPiece (other b) = rw (e, f, g) refl in
            add_piece d (other b) d k (λ ps. refl)
              (comma_behind false d s (rw (at_other d b s k i) at h))
      ]
    ]
  ]
]

-- The level is the difference of the brackets, and wraps.
level-counts :
    (d : ℕ) (ps : List Piece)
    → d < 4294967296
    → level d ps ≡ (d + opened ps + 4294967295 * closed ps) % 4294967296
unfolding level opened closed increment decrement
level-counts d [] h = omega arith
level-counts d (literal cs ∷ ps) h = level-counts d ps h
level-counts d (opening b ∷ ps) h =
    let e = level-counts (increment d) ps (omega arith) in omega (arith, e)
level-counts d (closing b ∷ ps) h =
    let e = level-counts (decrement d) ps (omega arith) in omega (arith, e)
level-counts d (other b ∷ ps) h = level-counts d ps h

body-length : (cs : List StringChar) (s : Bytes) → length s ≤ length (body cs ++ s)
unfolding body
body-length cs s = rw (length-append (body cs) s) (omega arith)

-- No more brackets than bytes.
in_front-length :
    (ps : List Piece) (s : Bytes) → opened ps + closed ps + length s ≤ length (in_front ps s)
unfolding opened closed
in_front-length [] s = omega arith
in_front-length (literal cs ∷ ps) s =
    let h = in_front-length ps s in
    let k = body-length cs (b'"' ∷ in_front ps s) in omega (arith, h, k)
in_front-length (opening b ∷ ps) s = omega (arith, in_front-length ps s)
in_front-length (closing b ∷ ps) s = omega (arith, in_front-length ps s)
in_front-length (other b ∷ ps) s = omega (arith, in_front-length ps s)

level-balanced :
    (ps : List Piece) (s rest : Bytes)
    → s ≡ in_front ps (b',' ∷ rest)
    → length s < 2147483648
    → (level 0 ps ≡ 0) ↔ (opened ps ≡ closed ps)
level-balanced ps s rest e h =
    let l = in_front-length ps (b',' ∷ rest) in
    let n = ap (λ t. length t) e in
    let c = level-counts 0 ps (omega arith) in
    ((λ z. omega (arith, z, l, n, c, h)), (λ z. omega (arith, z, l, n, c, h)))

-- In a text of less than 2^31 bytes a comma is found exactly if the text splits into string literals,
-- brackets and other bytes, and a comma before which as many brackets have closed as have opened.
pub has_top_level_comma_iff :
    (s : Bytes) → length s < 2147483648 → (has_top_level_comma s ≡ true) ↔ TopLevelComma s
unfolding has_top_level_comma
has_top_level_comma_iff s h = (
  λ f.
      let (ps, rest, i, e, l) = comma_behind false 0 s f in
      (ps, rest, i, e, (level-balanced ps s rest e h).0 l),
  λ (ps, rest, i, e, l).
      rw e (comma_from-in_front 0 ps rest i ((level-balanced ps s rest e h).1 l)),
)
