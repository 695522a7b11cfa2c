-- ===== src/Server/Slot/Stub/Chunks.antt =====
-- model_api_server/src/slot.rs: the chunks of the stub.
use chitin_model_api.Prelude.Lists.{length}
use chitin_model_api.Prelude.Tests.{◌==◌, if◌then◌else◌, Bool-cases, ==_iff}
use chitin_model_api.Prelude.Text.{Bytes, codes, chars, char_cons}
use chitin_model_api.Prelude.{
  ℕ, suc, ◌+◌, ◌/◌, ◌≡◌, ◌≢◌, ◌<◌, refl, sym, ap, ◌∙◌, max, true, false, List, [], ◌∷◌, ◌++◌, none,
  some, inl, inr, arith, append_assoc,
}
use chitin_model_api.Server.Slot.Stub.{emits, text_chunk, chunks_from, text_chunks}
use chitin_model_api.Server.Slot.{SlotEvent}

abbrev pub concat : List Bytes → Bytes
concat [] = []
concat (x ∷ xs) = x ++ concat xs

-- The text that a list of events shows.
abbrev pub shown : List SlotEvent → Bytes
shown [] = []
shown (SlotEvent.chunk c ∷ es) = c.delta_text ++ shown es
shown (SlotEvent.progress p ∷ es) = shown es

-- Chunks without a finish reason, and then one that says `stop`.
abbrev pub StopsOnce : List SlotEvent → Type 0
StopsOnce [] = ⊥
StopsOnce (SlotEvent.progress p ∷ es) = ⊥
StopsOnce (SlotEvent.chunk c ∷ []) = c.finish_reason ≡ some (codes "stop")
StopsOnce (SlotEvent.chunk c ∷ e ∷ es) = (c.finish_reason ≡ none) × StopsOnce (e ∷ es)

concat-char_cons : (b : ℕ) (cs : List Bytes) → concat (char_cons b cs) ≡ b ∷ concat cs
unfolding char_cons
concat-char_cons b [] = refl
concat-char_cons b ([] ∷ cs) = refl
concat-char_cons b ((c ∷ ch) ∷ cs) = ground arith

pub concat-chars : (t : Bytes) → concat (chars t) ≡ t
unfolding chars
concat-chars [] = refl
concat-chars (b ∷ t) = concat-char_cons b (chars t) ∙ ap (◌∷◌ b) (concat-chars t)

char_cons-length : (b : ℕ) (cs : List Bytes) → 0 < length (char_cons b cs)
unfolding char_cons
char_cons-length b [] = omega arith
char_cons-length b ([] ∷ cs) = omega arith
char_cons-length b ((c ∷ ch) ∷ cs) = ground arith

StopsOnce-cons :
    (d : Bytes) (es : List SlotEvent) → StopsOnce es → StopsOnce (text_chunk d none ∷ es)
unfolding text_chunk
StopsOnce-cons d [] h = elim h [ ]
StopsOnce-cons d (e ∷ es) h = (refl, h)

module _ (n k : ℕ) where
  lt_not_last : (i : ℕ) → i + 1 < n → (i + 1 == n) ≡ false
  lt_not_last i h = ground arith

  shown-chunks_from :
      (i : ℕ) (buf ch : Bytes) (cs : List Bytes)
      → i + suc (length cs) ≡ n
      → shown (chunks_from n k i buf (ch ∷ cs)) ≡ buf ++ (ch ++ concat cs)
  unfolding chunks_from
  shown-chunks_from i buf ch [] h = ground (arith, append_assoc buf ch [])
  shown-chunks_from i buf ch (x ∷ cs) h = ground (
    arith,
    append_assoc buf ch (x ++ concat cs),
    shown-chunks_from (i + 1) [] x cs,
    shown-chunks_from (i + 1) (buf ++ ch) x cs,
  )

  chunks_from_emit :
      (i : ℕ) (buf ch : Bytes) (cs : List Bytes)
      → emits n k i ≡ true
      → chunks_from n k i buf (ch ∷ cs)
        ≡ text_chunk (buf ++ ch) (if i + 1 == n then some (codes "stop") else none)
          ∷ chunks_from n k (i + 1) [] cs
  unfolding chunks_from
  chunks_from_emit i buf ch cs h = rw (h, chunks_from)

  chunks_from_skip :
      (i : ℕ) (buf ch : Bytes) (cs : List Bytes)
      → emits n k i ≡ false
      → chunks_from n k i buf (ch ∷ cs) ≡ chunks_from n k (i + 1) (buf ++ ch) cs
  unfolding chunks_from
  chunks_from_skip i buf ch cs h = rw (h, chunks_from)

  emits_last : (i : ℕ) → i + 1 ≡ n → emits n k i ≡ true
  unfolding emits
  emits_last i h = ground arith

  chunks_from-StopsOnce :
      (i : ℕ) (buf ch : Bytes) (cs : List Bytes)
      → i + suc (length cs) ≡ n
      → StopsOnce (chunks_from n k i buf (ch ∷ cs))
  chunks_from-StopsOnce i buf ch [] h =
      rw (chunks_from_emit i buf ch [] (emits_last i h))
        (unfold chunks_from in ground (arith, ==_iff (i + 1) n))
  chunks_from-StopsOnce i buf ch (x ∷ cs) h = elim (Bool-cases (emits n k i)) [
    | inl now ↦
        rw (chunks_from_emit i buf ch (x ∷ cs) now, lt_not_last i (omega arith))
          (StopsOnce-cons (buf ++ ch) _ (chunks_from-StopsOnce (i + 1) [] x cs (omega arith)))
    | inr later ↦
        rw (chunks_from_skip i buf ch (x ∷ cs) later)
          (chunks_from-StopsOnce (i + 1) (buf ++ ch) x cs (omega arith))
  ]

-- On any response text: the chunks put together are the text.
pub shown-text_chunks : (t : Bytes) → shown (text_chunks t) ≡ t
unfolding text_chunks
shown-text_chunks t = go (chars t) refl
  where
    go :
        (cs : List Bytes)
        → chars t ≡ cs
        → shown (chunks_from (max (length cs) 1) (max (max (length cs) 1 / 3) 1) 0 [] cs) ≡ t
    go [] e = ap concat (sym e) ∙ concat-chars t
    go (ch ∷ cs) e =
        shown-chunks_from (max (length (ch ∷ cs)) 1) (max (max (length (ch ∷ cs)) 1 / 3) 1) 0 [] ch
          cs (omega arith)
        ∙ ap concat (sym e)
        ∙ concat-chars t

-- On a non-empty text: only the last chunk has a finish reason, and that is `stop`.
pub text_chunks-StopsOnce : (t : Bytes) → t ≢ [] → StopsOnce (text_chunks t)
unfolding text_chunks
text_chunks-StopsOnce t h = go (chars t) refl
  where
    go :
        (cs : List Bytes)
        → chars t ≡ cs
        → StopsOnce (chunks_from (max (length cs) 1) (max (max (length cs) 1 / 3) 1) 0 [] cs)
    go [] e = absurd (h (sym (concat-chars t) ∙ ap concat e))
    go (ch ∷ cs) e =
        chunks_from-StopsOnce (max (length (ch ∷ cs)) 1) (max (max (length (ch ∷ cs)) 1 / 3) 1) 0 []
          ch cs (omega arith)
