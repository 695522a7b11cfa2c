-- ===== src/Server/Tools/Calls.antt =====
-- model_api_server/src/tool_text.rs: the calls that `extract_tool_calls` finds.
use chitin_model_api.Lenient.Object.{Panic}
use chitin_model_api.Prelude.Result.{Result, ok, err}
use chitin_model_api.Prelude.Lists.{length}
use chitin_model_api.Prelude.Tests.{◌==◌, ==_iff, Bool-cases, Option-cases}
use chitin_model_api.Prelude.Text.{Bytes, is_empty, strip_prefix}
use chitin_model_api.Prelude.{
  ℕ, zero, suc, ◌+◌, ◌≤◌, ◌<◌, ◌≡◌, refl, sym, ap, ◌∙◌, append_assoc, Bool, false, ◌||◌, List, [],
  ◌∷◌, ◌++◌, Option, none, some, arith, inl, inr,
}
use chitin_model_api.Proto.{ToolCall}
use chitin_model_api.Server.Tools.{
  ToolFormat, before_first, find_marker, call_id, add_call, Searched, parsed_body, at_body, at_open,
  scan_calls, extract_tool_calls,
}

-- The calls have the ids of their positions, from `n` on.
abbrev pub Numbered : ℕ → List ToolCall → Type 0
Numbered n [] = Unit
Numbered n (c ∷ cs) = (c.id ≡ call_id n) × Numbered (suc n) cs

Numbered-snoc :
    (n : ℕ) (cs : List ToolCall) (c : ToolCall)
    → Numbered n cs
    → c.id ≡ call_id (n + length cs)
    → Numbered n (cs ++ (c ∷ []))
Numbered-snoc n [] c h e = (e ∙ ap call_id (omega arith), tt)
Numbered-snoc n (d ∷ cs) c h e =
    (h.0, Numbered-snoc (suc n) cs c h.1 (e ∙ ap call_id (omega arith)))

none-some : {a : Bytes} → ◌≡◌ {A = Option Bytes} none (some a) → ⊥
none-some h = cc h

strip_prefix-length :
    (p s rest : Bytes) → strip_prefix p s ≡ some rest → length p + length rest ≤ length s
unfolding strip_prefix
strip_prefix-length [] s rest h = let e : s ≡ rest = cc h in rw e (omega arith)
strip_prefix-length (c ∷ p) [] rest h = cc h
strip_prefix-length (c ∷ p) (d ∷ s) rest h =
    let below = strip_prefix-length p s rest in
    elim (Bool-cases (c == d)) [
      | inl same ↦ let le = below (rw (same, strip_prefix) at h) in omega arith
      | inr other ↦ absurd (none-some (rw (other, strip_prefix) at h))
    ]

-- The text around a marker; what is behind it is shorter by at least the marker.
abbrev Behind : Bytes → Bytes → Option (Bytes × Bytes) → Type 0
Behind p s none = Unit
Behind p s (some (front, rest)) = (s ≡ front ++ (p ++ rest)) × (length p + length rest ≤ length s)

strip_prefix-append : (p s rest : Bytes) → strip_prefix p s ≡ some rest → s ≡ p ++ rest
unfolding strip_prefix
strip_prefix-append [] s rest h = cc h
strip_prefix-append (c ∷ p) [] rest h = cc h
strip_prefix-append (c ∷ p) (d ∷ s) rest h = elim (Bool-cases (c == d)) [
  | inl same ↦
      let below = strip_prefix-append p s rest (rw (same, strip_prefix) at h) in
      rw ((==_iff c d).0 same, ← below) refl
  | inr other ↦ absurd (none-some (rw (other, strip_prefix) at h))
]

before_first-Behind :
    (p s : Bytes) (c : ℕ) (o : Option (Bytes × Bytes))
    → Behind p s o
    → Behind p (c ∷ s) (before_first c o)
unfolding before_first
before_first-Behind p s c none h = tt
before_first-Behind p s c (some (front, rest)) (e, h) = (ap (◌∷◌ c) e, omega (arith, h))

find_marker-Behind : (p s : Bytes) → Behind p s (find_marker p s)
unfolding find_marker
find_marker-Behind p [] = elim (Option-cases (strip_prefix p [])) [
  | inl e ↦ rw (e, find_marker) tt
  | inr (rest, e) ↦
      rw (e, find_marker) (strip_prefix-append p [] rest e, strip_prefix-length p [] rest e)
]
find_marker-Behind p (c ∷ s) =
    let later = before_first-Behind p s c (find_marker p s) (find_marker-Behind p s) in
    elim (Option-cases (strip_prefix p (c ∷ s))) [
      | inl e ↦ rw (e, find_marker) later
      | inr (rest, e) ↦
          rw (e, find_marker)
            (strip_prefix-append p (c ∷ s) rest e, strip_prefix-length p (c ∷ s) rest e)
    ]

module _ (fmt : ToolFormat) where
  -- A body between markers in the text on which `parse_body` panics.
  abbrev pub Panics : Bytes → Panic → Type 0
  Panics t p =
      (front : Bytes) × (body : Bytes) × (rest : Bytes) × (t
        ≡ front ++ (fmt.open_marker ++ (body ++ (fmt.close_marker ++ rest))))
      × (fmt.parse_body body ≡ err p)

  -- Calls with the ids of their positions, or the panic of a body.
  abbrev pub Outcome : Bytes → Result Panic (List ToolCall) → Type 0
  Outcome t (ok cs) = Numbered 0 cs
  Outcome t (err p) = Panics t p

  abbrev Found : Bytes → Searched fmt → Type 0
  Found t o = (r : Result Panic (List ToolCall)) × (o ≡ some r) × Outcome t r

  -- In a longer text, too.
  Outcome-behind :
      (t front rest : Bytes) (r : Result Panic (List ToolCall))
      → t ≡ front ++ rest
      → Outcome rest r
      → Outcome t r
  Outcome-behind t front rest (ok cs) e h = h
  Outcome-behind t front rest (err p) e (f, body, rest', g, h) =
      (front ++ f, body, rest', e ∙ ap (λ x. front ++ x) g ∙ sym (append_assoc front f _), h)

  Found-behind :
      (t front rest : Bytes) (o : Searched fmt) → t ≡ front ++ rest → Found rest o → Found t o
  Found-behind t front rest o e (r, f, h) = (r, f, Outcome-behind t front rest r e h)

  add_call-Numbered :
      (calls : List ToolCall) (parsed : Option (Bytes × Bytes))
      → Numbered 0 calls
      → Numbered 0 (add_call fmt calls parsed)
  unfolding add_call
  add_call-Numbered calls none h = h
  add_call-Numbered calls (some (name, args)) h =
      Numbered-snoc 0 calls _ h (ap call_id (omega arith))

  -- The body and its markers, as what stands in front of the rest.
  rest_behind :
      (t front behind body rest : Bytes)
      → t ≡ front ++ (fmt.open_marker ++ behind)
      → behind ≡ body ++ (fmt.close_marker ++ rest)
      → t ≡ (front ++ (fmt.open_marker ++ (body ++ fmt.close_marker))) ++ rest
  rest_behind t front behind body rest e f =
      e
      ∙ ap (λ x. front ++ (fmt.open_marker ++ x))
          (f ∙ sym (append_assoc body fmt.close_marker rest))
      ∙ ap (λ x. front ++ x) (sym (append_assoc fmt.open_marker (body ++ fmt.close_marker) rest))
      ∙ sym (append_assoc front (fmt.open_marker ++ (body ++ fmt.close_marker)) rest)

  parsed_body-Found :
      (again : List ToolCall → Bytes → Searched fmt) (calls : List ToolCall)
      (t front behind body rest : Bytes) (parsed : Result Panic (Option (Bytes × Bytes)))
      → fmt.parse_body body ≡ parsed
      → t ≡ front ++ (fmt.open_marker ++ behind)
      → behind ≡ body ++ (fmt.close_marker ++ rest)
      → Numbered 0 calls
      → ((calls' : List ToolCall) → Numbered 0 calls' → Found rest (again calls' rest))
      → Found t (parsed_body fmt again calls rest parsed)
  unfolding parsed_body
  parsed_body-Found again calls t front behind body rest (err p) h e f n below =
      (err p, refl, (front, body, rest, e ∙ ap (λ x. front ++ (fmt.open_marker ++ x)) f, h))
  parsed_body-Found again calls t front behind body rest (ok parsed) h e f n below =
      Found-behind t _ rest (again (add_call fmt calls parsed) rest)
        (rest_behind t front behind body rest e f)
        (below (add_call fmt calls parsed) (add_call-Numbered calls parsed n))

  at_body-Found :
      (again : List ToolCall → Bytes → Searched fmt) (calls : List ToolCall)
      (t front behind : Bytes) (o : Option (Bytes × Bytes))
      → t ≡ front ++ (fmt.open_marker ++ behind)
      → Behind fmt.close_marker behind o
      → Numbered 0 calls
      → ((calls' : List ToolCall) (rest : Bytes)
          → length rest ≤ length behind
          → Numbered 0 calls'
          → Found rest (again calls' rest))
      → Found t (at_body fmt again calls o)
  unfolding at_body
  at_body-Found again calls t front behind none e b n below = (ok calls, refl, n)
  at_body-Found again calls t front behind (some (body, rest)) e (f, l) n below =
      parsed_body-Found again calls t front behind body rest (fmt.parse_body body) refl e f n
        (λ calls' n'. below calls' rest (omega (arith, l)) n')

  at_open-Found :
      (again : List ToolCall → Bytes → Searched fmt) (calls : List ToolCall) (fuel : ℕ) (t : Bytes)
      (o : Option (Bytes × Bytes))
      → 0 < length fmt.open_marker
      → length t < suc fuel
      → Behind fmt.open_marker t o
      → Numbered 0 calls
      → ((calls' : List ToolCall) (rest : Bytes)
          → length rest < fuel
          → Numbered 0 calls'
          → Found rest (again calls' rest))
      → Found t (at_open fmt again calls o)
  unfolding at_open
  at_open-Found again calls fuel t none some_open enough b n below = (ok calls, refl, n)
  at_open-Found again calls fuel t (some (front, behind)) some_open enough (e, l) n below =
      at_body-Found again calls t front behind (find_marker fmt.close_marker behind) e
        (find_marker-Behind fmt.close_marker behind) n
        (λ calls' rest le. below calls' rest (omega (arith, l, le, some_open, enough)))

  scan_calls-Found :
      (fuel : ℕ) (calls : List ToolCall) (t : Bytes)
      → 0 < length fmt.open_marker
      → length t < fuel
      → Numbered 0 calls
      → Found t (scan_calls fmt fuel calls t)
  unfolding scan_calls
  scan_calls-Found zero calls t some_open enough h = absurd (omega arith)
  scan_calls-Found (suc fuel) calls t some_open enough h =
      at_open-Found (scan_calls fmt fuel) calls fuel t (find_marker fmt.open_marker t) some_open
        enough (find_marker-Behind fmt.open_marker t) h
        (λ calls' rest lt. scan_calls-Found fuel calls' rest some_open lt)

  open_length : (m : Bytes) (b : Bool) → (is_empty m || b) ≡ false → 0 < length m
  unfolding is_empty
  open_length [] b h = cc h
  open_length (c ∷ m) b h = omega arith

  -- On every response text the search for tool calls comes to an end: with calls that have the ids of
  -- their positions, `tc-0` first, or with a panic, and then the text has a body between an opening
  -- and a closing marker on which `parse_body` panics.
  pub extract_tool_calls-Numbered :
      (t : Bytes)
      → (r : Result Panic (List ToolCall)) × (extract_tool_calls fmt t ≡ some r) × Outcome t r
  unfolding extract_tool_calls
  extract_tool_calls-Numbered t =
      elim (Bool-cases (is_empty fmt.open_marker || is_empty fmt.close_marker)) [
        | inl missing ↦ rw (missing, extract_tool_calls) (ok [], refl, tt)
        | inr present ↦
            let long = open_length fmt.open_marker (is_empty fmt.close_marker) present in
            rw (present, extract_tool_calls)
              (scan_calls-Found (suc (length t)) [] t long (omega arith) tt)
      ]
