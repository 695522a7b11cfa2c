-- ===== src/Cache/Key/Injective.antt =====
-- model_api_server/src/litertlm_slot.rs: when two prefixes have the same canonical bytes.
use chitin_model_api.Cache.Key.{
  role_byte, counted, id_bytes, turn_bytes, turns_bytes, system_bytes, canonical_prefix_bytes,
  turns_mark,
}
use chitin_model_api.Prelude.Lists.{length, All}
use chitin_model_api.Prelude.Tests.{lt→ltb}
use chitin_model_api.Prelude.Text.{Bytes, codes, u32_to_le_bytes, u32_from_le_bytes}
use chitin_model_api.Prelude.{
  ℕ, ◌/◌, ◌%◌, ◌^◌, ◌<◌, ◌≡◌, ◌≢◌, refl, sym, ap, ◌∙◌, List, [], ◌∷◌, ◌++◌, Option, none, some,
  arith, append_assoc,
}
use chitin_model_api.Proto.{Role, system, user, assistant, tool, Turn, F32}
use mathlib.Core.Path.{subst}
use chitin_model_api.Wire.Decode.{le_bytes_round_trip}

-- Only tool turns carry the id of a call, and a length fits its four bytes.
abbrev pub IdFits : Role → Option Bytes → Type 0
IdFits tool (some id) = length id < 2 ^ 32
IdFits tool none = ⊥
IdFits _ (some id) = ⊥
IdFits _ none = Unit

pub record IsConventional (t : Turn) : Type 0 where
  pub content_fits : length t.content < 2 ^ 32
  pub id_fits : IdFits t.role t.tool_call_id

le_bytes-injective :
    (m n : ℕ) (x y : Bytes)
    → m < 2 ^ 32
    → n < 2 ^ 32
    → u32_to_le_bytes m ++ x ≡ u32_to_le_bytes n ++ y
    → (m ≡ n) × (x ≡ y)
unfolding u32_to_le_bytes
le_bytes-injective m n x y hm hn e =
    (sym (le_bytes_round_trip m hm) ∙ same ∙ le_bytes_round_trip n hn, cc)
  where
    same :
        u32_from_le_bytes (m % 256) (m / 256 % 256) (m / 65536 % 256) (m / 16777216 % 256)
        ≡ u32_from_le_bytes (n % 256) (n / 256 % 256) (n / 65536 % 256) (n / 16777216 % 256)
    same = cc

append-injective : (a b x y : Bytes) → length a ≡ length b → a ++ x ≡ b ++ y → (a ≡ b) × (x ≡ y)
append-injective [] [] x y h e = (refl, e)
append-injective [] (c ∷ b) x y h e = absurd (omega arith)
append-injective (c ∷ a) [] x y h e = absurd (omega arith)
append-injective (c ∷ a) (d ∷ b) x y h e =
    let (p, q) = append-injective a b x y (omega arith) cc in (cc, q)

counted_fits :
    (a x : Bytes) → length a < 2 ^ 32 → counted a ++ x ≡ u32_to_le_bytes (length a) ++ (a ++ x)
unfolding counted
counted_fits a x h = rw (lt→ltb (length a) (2 ^ 32) h, append_assoc)

counted-injective :
    (a b x y : Bytes)
    → length a < 2 ^ 32
    → length b < 2 ^ 32
    → counted a ++ x ≡ counted b ++ y
    → (a ≡ b) × (x ≡ y)
counted-injective a b x y ha hb e =
    let (l, r) =
      le_bytes-injective (length a) (length b) (a ++ x) (b ++ y) ha hb
        (sym (counted_fits a x ha) ∙ e ∙ counted_fits b y hb) in
    append-injective a b x y l r

role_byte-injective : (r q : Role) → role_byte r ≡ role_byte q → r ≡ q
unfolding role_byte
role_byte-injective system q e = ground arith
role_byte-injective user q e = ground arith
role_byte-injective assistant q e = ground arith
role_byte-injective tool q e = ground arith

id_bytes-injective :
    (r : Role) (a b : Option Bytes) (x y : Bytes)
    → IdFits r a
    → IdFits r b
    → id_bytes a ++ x ≡ id_bytes b ++ y
    → (a ≡ b) × (x ≡ y)
id_bytes-injective tool (some a) (some b) x y ha hb e =
    let (p, q) = counted-injective a b x y ha hb (unfold id_bytes in e) in (ap some p, q)
id_bytes-injective tool (some a) none x y ha hb e = elim hb [ ]
id_bytes-injective tool none b x y ha hb e = elim ha [ ]
id_bytes-injective system none none x y ha hb e = (refl, unfold id_bytes in e)
id_bytes-injective user none none x y ha hb e = (refl, unfold id_bytes in e)
id_bytes-injective assistant none none x y ha hb e = (refl, unfold id_bytes in e)
id_bytes-injective system none (some b) x y ha hb e = elim hb [ ]
id_bytes-injective user none (some b) x y ha hb e = elim hb [ ]
id_bytes-injective assistant none (some b) x y ha hb e = elim hb [ ]
id_bytes-injective system (some a) b x y ha hb e = elim ha [ ]
id_bytes-injective user (some a) b x y ha hb e = elim ha [ ]
id_bytes-injective assistant (some a) b x y ha hb e = elim ha [ ]

turn_bytes_shape :
    (t : Turn) (x : Bytes)
    → turn_bytes t ++ x ≡ role_byte t.role ∷ (counted t.content ++ (id_bytes t.tool_call_id ++ x))
unfolding turn_bytes
turn_bytes_shape t x =
    ap (◌∷◌ (role_byte t.role)) (append_assoc (counted t.content) (id_bytes t.tool_call_id) x)

turn_bytes-injective :
    (s t : Turn) (x y : Bytes)
    → IsConventional s
    → IsConventional t
    → turn_bytes s ++ x ≡ turn_bytes t ++ y
    → (s ≡ t) × (x ≡ y)
turn_bytes-injective s t x y hs ht e =
    let (role, tails) = split in
    let (content, ids) =
      counted-injective s.content t.content (id_bytes s.tool_call_id ++ x)
        (id_bytes t.tool_call_id ++ y) hs.content_fits ht.content_fits tails in
    let (id, rest) =
      id_bytes-injective s.role s.tool_call_id t.tool_call_id x y hs.id_fits
        (subst (λ r. IdFits r t.tool_call_id) (sym role) ht.id_fits) ids in
    (λ i. record { role = role i; content = content i; tool_call_id = id i }, rest)
  where
    whole :
        role_byte s.role ∷ (counted s.content ++ (id_bytes s.tool_call_id ++ x))
        ≡ role_byte t.role ∷ (counted t.content ++ (id_bytes t.tool_call_id ++ y))
    whole = sym (turn_bytes_shape s x) ∙ e ∙ turn_bytes_shape t y

    split :
        (s.role ≡ t.role)
        × (counted s.content ++ (id_bytes s.tool_call_id ++ x)
            ≡ counted t.content ++ (id_bytes t.tool_call_id ++ y))
    split = (role_byte-injective s.role t.role (cc whole), cc whole)

first :
    (s : Turn) (ss : List Turn) (t : Turn) (ts : List Turn)
    → turns_bytes (s ∷ ss) ≡ turns_bytes (t ∷ ts)
    → turn_bytes s ++ turns_bytes ss ≡ turn_bytes t ++ turns_bytes ts
unfolding turns_bytes
first s ss t ts e = e

turns_bytes-injective :
    (ss ts : List Turn)
    → All IsConventional ss
    → All IsConventional ts
    → turns_bytes ss ≡ turns_bytes ts
    → ss ≡ ts
turns_bytes-injective [] [] hs ht e = refl
turns_bytes-injective [] (t ∷ ts) hs ht e = unfold turns_bytes in cc
turns_bytes-injective (s ∷ ss) [] hs ht e = unfold turns_bytes in cc
turns_bytes-injective (s ∷ ss) (t ∷ ts) hs ht e =
    let (p, q) =
      turn_bytes-injective s t (turns_bytes ss) (turns_bytes ts) hs.0 ht.0 (first s ss t ts e) in
    cc (turns_bytes-injective ss ts hs.1 ht.1 q)

-- Up to its first NUL a text is determined.
split_at_nul :
    (a b x y : Bytes)
    → All (λ c. c ≢ 0) a
    → All (λ c. c ≢ 0) b
    → a ++ (0 ∷ x) ≡ b ++ (0 ∷ y)
    → (a ≡ b) × (x ≡ y)
split_at_nul [] [] x y ha hb e = (refl, cc)
split_at_nul [] (d ∷ b) x y ha hb e = absurd (hb.0 cc)
split_at_nul (c ∷ a) [] x y ha hb e = absurd (ha.0 cc)
split_at_nul (c ∷ a) (d ∷ b) x y ha hb e = let (p, q) = split_at_nul a b x y ha.1 hb.1 cc in (cc, q)

-- What stands behind the system prompt.
behind_system : F32 → F32 → List Turn → Bytes
behind_system top_p temperature ts =
    codes "sampler"
    ++ (0
        ∷ (u32_to_le_bytes top_p
            ++ (u32_to_le_bytes temperature ++ (turns_mark ++ turns_bytes ts))))

canonical_shape :
    (s : Option Bytes) (p t : F32) (ts : List Turn)
    → canonical_prefix_bytes s p t ts
      ≡ codes "sys" ++ (0 ∷ (system_bytes s ++ (0 ∷ behind_system p t ts)))
unfolding canonical_prefix_bytes behind_system
canonical_shape s p t ts = refl

behind_system-injective :
    (p p' t t' : F32) (ts ts' : List Turn)
    → p < 2 ^ 32
    → p' < 2 ^ 32
    → t < 2 ^ 32
    → t' < 2 ^ 32
    → behind_system p t ts ≡ behind_system p' t' ts'
    → (p ≡ p') × (t ≡ t') × (turns_bytes ts ≡ turns_bytes ts')
unfolding behind_system
behind_system-injective p p' t t' ts ts' hp hp' ht ht' e =
    let (a, r) = le_bytes-injective p p' _ _ hp hp' (cc) in
    let (b, r') =
      le_bytes-injective t t' (turns_mark ++ turns_bytes ts) (turns_mark ++ turns_bytes ts') ht ht'
        r in
    (a, b, cc)

-- The canonical bytes are a faithful key: where the system prompts hold no NUL byte, the turns keep
-- to the convention on call ids and every length fits four bytes, two prefixes with the same bytes
-- have the same system prompt (none and an empty one count as the same), the same sampler values and
-- the same turns.
pub canonical_prefix_bytes-injective :
    (s s' : Option Bytes) (p p' t t' : F32) (ts ts' : List Turn)
    → All (λ c. c ≢ 0) (system_bytes s)
    → All (λ c. c ≢ 0) (system_bytes s')
    → p < 2 ^ 32
    → p' < 2 ^ 32
    → t < 2 ^ 32
    → t' < 2 ^ 32
    → All IsConventional ts
    → All IsConventional ts'
    → canonical_prefix_bytes s p t ts ≡ canonical_prefix_bytes s' p' t' ts'
    → (system_bytes s ≡ system_bytes s') × (p ≡ p') × (t ≡ t') × (ts ≡ ts')
canonical_prefix_bytes-injective s s' p p' t t' ts ts' hs hs' hp hp' ht ht' hts hts' e =
    let (sys, tails) = split_at_nul (system_bytes s) (system_bytes s') _ _ hs hs' marked in
    let (a, b, c) = behind_system-injective p p' t t' ts ts' hp hp' ht ht' tails in
    (sys, a, b, turns_bytes-injective ts ts' hts hts' c)
  where
    marked :
        system_bytes s ++ (0 ∷ behind_system p t ts)
        ≡ system_bytes s' ++ (0 ∷ behind_system p' t' ts')
    marked = let whole = sym (canonical_shape s p t ts) ∙ e ∙ canonical_shape s' p' t' ts' in cc
