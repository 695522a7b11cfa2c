-- ===== src/Lenient/Quotes/Drops.antt =====
-- What `un_escape_structural_quotes` may change of a text, whatever the expressions match.
use chitin_model_api.Lenient.Quotes.{
  Match, Regexes, collect, collect_all, insert_position, sort_positions, dedup, rewritten,
  to_unescape, un_escape_structural_quotes,
}
use chitin_model_api.Lenient.Trim.{contains}
use chitin_model_api.Prelude.Lists.{All, take, drop, take-append-drop}
use chitin_model_api.Prelude.Tests.{ltb, leb, ◌==◌, ==_iff, if◌then◌else◌, Bool-cases, both_true}
use chitin_model_api.Prelude.Text.{Bytes, bytes_eq, bytes_eq_iff, is_empty}
use chitin_model_api.Prelude.{
  ℕ, zero, suc, ◌+◌, ◌-◌, ◌≤◌, ◌≡◌, ◌≢◌, refl, sym, ap, ◌∙◌, inl, inr, Bool, true, false, ◌&&◌,
  none, some, List, [], ◌∷◌, ◌++◌, arith,
}

-- The second text is the first without some backslashes, each in front of a quote.
pub data Drops : Bytes → Bytes → Type 0 where
  done : Drops [] []
  keep : {s t : Bytes} (b : ℕ) → Drops s t → Drops (b ∷ s) (b ∷ t)
  unescape : {s t : Bytes} → Drops s t → Drops (b'\\' ∷ b'"' ∷ s) (b'"' ∷ t)

-- The match stands in the text where it says.
abbrev pub IsMatch : Bytes → Match → Type 0
IsMatch raw m = (rest : Bytes) × (drop m.start raw ≡ m.text ++ rest)

abbrev QuoteAt : Bytes → ℕ → Type 0
QuoteAt raw n = (t : Bytes) × (drop n raw ≡ b'\\' ∷ b'"' ∷ t)

Drops-refl : (s : Bytes) → Drops s s
Drops-refl [] = done
Drops-refl (b ∷ s) = keep b (Drops-refl s)

from_text : {s s' t : Bytes} → s ≡ s' → Drops s' t → Drops s t
from_text e d = rw e d

Drops-append : (p : Bytes) {s t : Bytes} → Drops s t → Drops (p ++ s) (p ++ t)
Drops-append [] h = h
Drops-append (b ∷ p) h = keep b (Drops-append p h)

-- One byte further.
drop_next : (n : ℕ) (raw s : Bytes) (b : ℕ) → drop n raw ≡ b ∷ s → drop (suc n) raw ≡ s
drop_next zero [] s b h = absurd (cc h)
drop_next zero (c ∷ raw) s b h = cc h
drop_next (suc n) [] s b h = absurd (cc h)
drop_next (suc n) (c ∷ raw) s b h = drop_next n raw s b h

drop_at : (n m : ℕ) (raw s : Bytes) → n ≡ m → drop n raw ≡ s → drop m raw ≡ s
drop_at n m raw s e h = cc (e, h)

drop-nil : (n : ℕ) → drop {A = ℕ} n [] ≡ []
drop-nil zero = refl
drop-nil (suc n) = refl

drop-drop : (n m : ℕ) (raw : Bytes) → n ≤ m → drop (m - n) (drop n raw) ≡ drop m raw
drop-drop zero m raw h = drop_at m (m - 0) raw (drop m raw) (omega arith) refl
drop-drop (suc n) zero raw h = absurd (omega arith)
drop-drop (suc n) (suc m) [] h = drop-nil (suc m - suc n)
drop-drop (suc n) (suc m) (b ∷ raw) h =
    drop_at (m - n) (suc m - suc n) (drop n raw) (drop m raw) (omega arith)
      (drop-drop n m raw (omega arith))

collect-QuoteAt :
    (raw : Bytes) (at : ℕ) (text rest : Bytes)
    → drop at raw ≡ text ++ rest
    → All (QuoteAt raw) (collect at text)
unfolding collect
collect-QuoteAt raw at [] rest h = tt
collect-QuoteAt raw at (b ∷ []) rest h = tt
collect-QuoteAt raw at (b ∷ c ∷ s) rest h =
    let one = drop_next at raw (c ∷ s ++ rest) b h in
    let two = drop_next (suc at) raw (s ++ rest) c one in
    elim (Bool-cases (b == b'\\' && c == b'"')) [
      | inl e ↦
          let (i, j) = both_true (b == b'\\') (c == b'"') e in
          rw (e, All)
            (
              (s ++ rest, h ∙ cc ((==_iff b b'\\').0 i, (==_iff c b'"').0 j)),
              collect-QuoteAt raw (at + 2) s rest
                  (drop_at (suc (suc at)) (at + 2) raw (s ++ rest) (omega arith) two),
            )
      | inr e ↦
          rw (e, All)
            (collect-QuoteAt raw (at + 1) (c ∷ s) rest
              (drop_at (suc at) (at + 1) raw (c ∷ s ++ rest) (omega arith) one))
    ]

All-append :
    (raw : Bytes) (ms ns : List ℕ)
    → All (QuoteAt raw) ms
    → All (QuoteAt raw) ns
    → All (QuoteAt raw) (ms ++ ns)
All-append raw [] ns h k = k
All-append raw (m ∷ ms) ns h k = (h.0, All-append raw ms ns h.1 k)

collect_all-QuoteAt :
    (raw : Bytes) (ms : List Match) → All (IsMatch raw) ms → All (QuoteAt raw) (collect_all ms)
unfolding collect_all
collect_all-QuoteAt raw [] h = tt
collect_all-QuoteAt raw (m ∷ ms) ((rest, e), h) =
    All-append raw (collect m.start m.text) (collect_all ms)
      (collect-QuoteAt raw m.start m.text rest e) (collect_all-QuoteAt raw ms h)

insert_position-All :
    (raw : Bytes) (n : ℕ) (ns : List ℕ)
    → QuoteAt raw n
    → All (QuoteAt raw) ns
    → All (QuoteAt raw) (insert_position n ns)
unfolding insert_position
insert_position-All raw n [] h k = (h, tt)
insert_position-All raw n (m ∷ ns) h k = elim (Bool-cases (leb n m)) [
  | inl e ↦ rw (e, All) (h, k)
  | inr e ↦ rw (e, All) (k.0, insert_position-All raw n ns h k.1)
]

sort_positions-All :
    (raw : Bytes) (ns : List ℕ) → All (QuoteAt raw) ns → All (QuoteAt raw) (sort_positions ns)
unfolding sort_positions
sort_positions-All raw [] h = tt
sort_positions-All raw (n ∷ ns) h =
    insert_position-All raw n (sort_positions ns) h.0 (sort_positions-All raw ns h.1)

dedup-All : (raw : Bytes) (ns : List ℕ) → All (QuoteAt raw) ns → All (QuoteAt raw) (dedup ns)
unfolding dedup
dedup-All raw [] h = tt
dedup-All raw (n ∷ []) h = h
dedup-All raw (n ∷ m ∷ ns) h = elim (Bool-cases (n == m)) [
  | inl e ↦ rw (e, All) (dedup-All raw (m ∷ ns) h.1)
  | inr e ↦ rw (e, All) (h.0, dedup-All raw (m ∷ ns) h.1)
]

-- One position: what stands in front of it, and what behind the escaped quote.
at_position :
    (raw : Bytes) (cursor n : ℕ) (t out : Bytes)
    → cursor ≤ n
    → drop n raw ≡ b'\\' ∷ b'"' ∷ t
    → Drops t out
    → Drops (drop cursor raw) (take (n - cursor) (drop cursor raw) ++ b'"' ∷ out)
at_position raw cursor n t out h e d =
    let front = take (n - cursor) (drop cursor raw) in
    let whole : drop cursor raw ≡ front ++ b'\\' ∷ b'"' ∷ t =
      sym (take-append-drop (n - cursor) (drop cursor raw))
      ∙ ap (front ++◌) (drop-drop cursor n raw h ∙ e) in
    from_text whole (Drops-append front (unescape d))

rewritten-Drops :
    (raw : Bytes) (cursor : ℕ) (ns : List ℕ)
    → All (QuoteAt raw) ns
    → Drops (drop cursor raw) (rewritten raw cursor ns)
unfolding rewritten
rewritten-Drops raw cursor [] h = Drops-refl (drop cursor raw)
rewritten-Drops raw cursor (n ∷ ns) ((t, e), h) = elim (Bool-cases (ltb n cursor)) [
  | inl f ↦ rw (f, rewritten) (rewritten-Drops raw cursor ns h)
  | inr f ↦
      let one = drop_next n raw (b'"' ∷ t) b'\\' e in
      let two = drop_next (suc n) raw t b'"' one in
      let behind : drop (n + 2) raw ≡ t = drop_at (suc (suc n)) (n + 2) raw t (omega arith) two in
      rw (f, rewritten)
        (at_position raw cursor n t (rewritten raw (n + 2) ns) (ground (arith, f)) e
          (from_text (sym behind) (rewritten-Drops raw (n + 2) ns h)))
]

collected :
    (raw : Bytes) (regexes : Regexes)
    → All (IsMatch raw) (regexes.structural_kv_pair raw)
    → All (IsMatch raw) (regexes.structural_value_close_then_key raw)
    → All (IsMatch raw) (regexes.structural_value_close raw)
    → All (QuoteAt raw) (to_unescape regexes raw)
unfolding to_unescape
collected raw regexes h k l =
    let pairs = collect_all (regexes.structural_kv_pair raw) in
    let keys = collect_all (regexes.structural_value_close_then_key raw) in
    let closes = collect_all (regexes.structural_value_close raw) in
    All-append raw pairs (keys ++ closes)
      (collect_all-QuoteAt raw (regexes.structural_kv_pair raw) h)
      (All-append raw keys closes
        (collect_all-QuoteAt raw (regexes.structural_value_close_then_key raw) k)
        (collect_all-QuoteAt raw (regexes.structural_value_close raw) l))

-- What the guards let through.
guarded :
    (found empty same : Bool) (out out' : Bytes)
    → (if found then if empty then none else if same then none else some out else none) ≡ some out'
    → (out ≡ out') × (same ≡ false)
guarded true false false out out' e = (cc e, refl)
guarded true false true out out' e = absurd (cc e)
guarded true true same out out' e = absurd (cc e)
guarded false empty same out out' e = absurd (cc e)

-- Whatever is rewritten differs from the text, and only by backslashes in front of quotes that are
-- gone, if the matches stand in the text where they say.
pub un_escape_structural_quotes-Drops :
    (regexes : Regexes) (raw out : Bytes)
    → All (IsMatch raw) (regexes.structural_kv_pair raw)
    → All (IsMatch raw) (regexes.structural_value_close_then_key raw)
    → All (IsMatch raw) (regexes.structural_value_close raw)
    → un_escape_structural_quotes regexes raw ≡ some out
    → Drops raw out × (out ≢ raw)
unfolding un_escape_structural_quotes
un_escape_structural_quotes-Drops regexes raw out h k l e =
    let positions = to_unescape regexes raw in
    let result = rewritten raw 0 (dedup (sort_positions positions)) in
    let (same, differs) =
      guarded (contains (b'\\' ∷ b'"' ∷ []) raw) (is_empty positions) (bytes_eq result raw) result
        out e in
    let quotes = collected raw regexes h k l in
    (
      rw same at (
          rewritten-Drops raw 0 (dedup (sort_positions positions))
            (dedup-All raw (sort_positions positions) (sort_positions-All raw positions quotes))),
      λ f. cc ((bytes_eq_iff result raw).1 (same ∙ f), differs),
    )
