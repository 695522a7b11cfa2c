-- ===== src/Llama/Session/Prefill.antt =====
-- chitin_llama/src/session.rs: where a prefill puts the tokens of a prompt.
use chitin_model_api.Llama.Session.{
  Llama, Session, SessionError, Cell, Done, cells, add_each, decode, run_batch, next,
  prefill_chunks, finish, prefill,
}
use mathlib.Core.Path.{subst}
use chitin_model_api.Prelude.Lists.{
  length, take, drop, length-take, length-drop, take-append-drop, All,
}
use chitin_model_api.Prelude.Result.{Result, ok, err}
use chitin_model_api.Prelude.Tests.{ltb, ltb→lt, ◌==◌, Bool-cases}
use chitin_model_api.Prelude.{
  ℕ, zero, suc, ◌+◌, ◌-◌, ◌≤◌, ◌<◌, min, ◌≡◌, refl, sym, ap, ◌∙◌, Bool, true, false, ◌&&◌, List, [],
  ◌∷◌, ◌++◌, Option, none, some, arith, inl, inr, append_assoc, append-nil,
}

-- The entries for tokens `k`, `k + 1`, … of a prompt of `total` that starts at `start`: consecutive
-- positions, and logits for the last token of the prompt alone.
abbrev pub placed : ℕ → ℕ → ℕ → List ℕ → List Cell
placed start total k [] = []
placed start total k (t ∷ ts) =
    record { token = t; pos = start + k; logits = k == total - 1 } ∷ placed start total (suc k) ts

abbrev pub joined : List (List Cell) → List Cell
joined [] = []
joined (b ∷ bs) = b ++ joined bs

cells-placed :
    (start total end k : ℕ) (ts : List ℕ)
    → k + length ts ≤ end
    → end ≤ total
    → cells start total end k ts ≡ placed start total k ts
unfolding cells
cells-placed start total end k [] h le = refl
cells-placed start total end k (t ∷ ts) h le =
    let flag : (end == total && k == total - 1) ≡ (k == total - 1) = ground arith in
    let rest = cells-placed start total end (suc k) ts (omega arith) le in rw (flag, rest) refl

placed-append :
    (start total k : ℕ) (xs ys : List ℕ)
    → placed start total k (xs ++ ys)
      ≡ placed start total k xs ++ placed start total (k + length xs) ys
placed-append start total k [] ys = ap (λ j. placed start total j ys) (omega arith)
placed-append start total k (x ∷ xs) ys =
    let moved : suc k + length xs ≡ k + suc (length xs) = omega arith in
    ap (λ r. record { token = x; pos = start + k; logits = k == total - 1 } ∷ r)
      (placed-append start total (suc k) xs ys
        ∙ ap (λ j. placed start total (suc k) xs ++ placed start total j ys) moved)

length-placed : (start total k : ℕ) (ts : List ℕ) → length (placed start total k ts) ≡ length ts
length-placed start total k [] = refl
length-placed start total k (t ∷ ts) = ap suc (length-placed start total (suc k) ts)

abbrev failure : SessionError → Result SessionError (Unit {0})
failure e = err e

abbrev outcome : Option (Done (Unit {0})) → Result SessionError (Unit {0})
outcome none = err SessionError.batch_add
outcome (some d) = d.0

abbrev outcome_of : Option (Done ℕ) → Result SessionError ℕ
outcome_of none = err SessionError.batch_add
outcome_of (some d) = d.0

abbrev failure_of : SessionError → Result SessionError ℕ
failure_of e = err e

abbrev session_of : Session → Option (Done ℕ) → Session
session_of s none = s
session_of s (some d) = d.1

abbrev session : Session → Option (Done (Unit {0})) → Session
session s none = s
session s (some d) = d.1

abbrev reached : ℕ → Result SessionError ℕ
reached n = ok n

none-some : {A : Type 0} {a : A} → ◌≡◌ {A = Option A} none (some a) → ⊥
none-some h = cc h

abbrev failed : Result SessionError (Unit {0})
failed = err SessionError.batch_add

module _ (llama : Llama) where
  add_each-all : (held cs out : List Cell) → add_each llama held cs ≡ (true, out) → out ≡ held ++ cs
  unfolding add_each
  add_each-all held [] out h = let e : held ≡ out = ap (λ p. p.1) h in sym e ∙ sym (append-nil held)
  add_each-all held (c ∷ cs) out h =
      let rest = add_each-all (held ++ (c ∷ [])) cs out in
      elim (Bool-cases (llama.takes held)) [
        | inl p ↦ rest (rw (p, add_each) at h) ∙ append_assoc held (c ∷ []) cs
        | inr p ↦ let bad : false ≡ true = ap (λ r. r.0) (rw (p, add_each) at h) in absurd (cc bad)
      ]

  -- A batch that went through is the batch that was built, behind those before it.
  decode-ok :
      (cs : List Cell) (b : Bool × List Cell) (s s' : Session) (u : Unit {0})
      → (b.0 ≡ true → b.1 ≡ cs)
      → decode llama b s ≡ (ok u, s')
      → (s'.handed ≡ s.handed ++ (cs ∷ [])) × (s'.batch_capacity ≡ s.batch_capacity)
  unfolding decode
  decode-ok cs (false, held) s s' u full h = let bad : failed ≡ ok u = ap (λ r. r.0) h in cc bad
  decode-ok cs (true, held) s s' u full h =
      let e : (decode llama (true, held) s).1 ≡ s' = ap (λ r. r.1) h in
      (
        ap (λ r. r.handed) (sym e) ∙ ap (λ b. s.handed ++ (b ∷ [])) (full refl),
        ap (λ r. r.batch_capacity) (sym e),
      )

  pub run_batch-ok :
      (cs : List Cell) (s s' : Session) (u : Unit {0})
      → run_batch llama cs s ≡ (ok u, s')
      → (s'.handed ≡ s.handed ++ (cs ∷ [])) × (s'.batch_capacity ≡ s.batch_capacity)
  unfolding run_batch
  run_batch-ok cs s s' u h =
      decode-ok cs (add_each llama [] cs) s s' u
        (λ e. add_each-all [] cs ((add_each llama [] cs).1) (λ i. (e i, (add_each llama [] cs).1)))
        h

  next-ok :
      (again : Session → Option (Done (Unit {0}))) (d : Done (Unit {0})) (u : Unit {0})
      (s' : Session)
      → next llama again d ≡ some (ok u, s')
      → (d ≡ (ok u, d.1)) × (again d.1 ≡ some (ok u, s'))
  unfolding next
  next-ok again (err e, s) u s' h = let bad : failure e ≡ ok u = ap outcome h in cc bad
  next-ok again (ok v, s) u s' h = (refl, h)

  -- The batches that were handed over hold the entries in order, and none is too long.
  abbrev pub Placed : ℕ → ℕ → ℕ → List ℕ → Session → Session → Type 0
  Placed start total i ts s s' =
      (bs : List (List Cell)) × (s'.handed ≡ s.handed ++ bs)
      × (joined bs ≡ placed start total i ts)
      × All (λ b. length b ≤ s.batch_capacity) bs

  chunk-Placed :
      (start total i n : ℕ) (ts : List ℕ) (s s1 s' : Session)
      → i + length ts ≡ total
      → n ≤ length ts
      → n ≤ s.batch_capacity
      → s1.handed ≡ s.handed ++ (placed start total i (take n ts) ∷ [])
      → s1.batch_capacity ≡ s.batch_capacity
      → Placed start total (i + n) (drop n ts) s1 s'
      → Placed start total i ts s s'
  chunk-Placed start total i n ts s s1 s' len short fits handed cap (bs, more, same, bounds) =
      let b = placed start total i (take n ts) in
      let taken : length (take n ts) ≡ n = length-take n ts ∙ omega arith in
      (
        b ∷ bs,
        more ∙ ap (λ h. h ++ bs) handed ∙ append_assoc s.handed (b ∷ []) bs,
        ap (λ r. b ++ r) same
            ∙ ap (λ j. b ++ placed start total (i + j) (drop n ts)) (sym taken)
            ∙ sym (placed-append start total i (take n ts) (drop n ts))
            ∙ ap (λ r. placed start total i r) (take-append-drop n ts),
        (
          let e = length-placed start total i (take n ts) in omega arith,
          subst (λ c. All (λ r. length r ≤ c) bs) cap bounds,
        ),
      )

  prefill_chunks-Placed :
      (fuel start total i : ℕ) (ts : List ℕ) (s s' : Session) (u : Unit {0})
      → i + length ts ≡ total
      → prefill_chunks llama fuel start total i ts s ≡ some (ok u, s')
      → Placed start total i ts s s'
  unfolding prefill_chunks
  prefill_chunks-Placed fuel start total i [] s s' u len h =
      ([], ap (λ o. (session s o).handed) (sym h) ∙ sym (append-nil s.handed), refl, tt)
  prefill_chunks-Placed zero start total i (t ∷ ts) s s' u len h =
      let bad : failed ≡ ok u = ap outcome h in cc bad
  prefill_chunks-Placed (suc fuel) start total i (t ∷ ts) s s' u len h =
      let n = min s.batch_capacity (suc (length ts)) in
      let end = min (i + s.batch_capacity) total in
      let size : end - i ≡ n = omega arith in
      let last : end ≡ i + n = omega arith in
      let all : i + length (take n (t ∷ ts)) ≤ end =
        (let e = length-take n (t ∷ ts) in omega arith) in
      let d = run_batch llama (cells start total end i (take (end - i) (t ∷ ts))) s in
      let (ran, more) =
        next-ok (prefill_chunks llama fuel start total end (drop (end - i) (t ∷ ts))) d u s' h in
      let (handed, cap) =
        run_batch-ok (cells start total end i (take (end - i) (t ∷ ts))) s d.1 u ran in
      let built : cells start total end i (take (end - i) (t ∷ ts))
          ≡ placed start total i (take n (t ∷ ts)) =
        ap (λ m. cells start total end i (take m (t ∷ ts))) size
        ∙ cells-placed start total end i (take n (t ∷ ts)) all (omega arith) in
      let below =
        prefill_chunks-Placed fuel start total end (drop (end - i) (t ∷ ts)) d.1 s' u
          (let e = length-drop (end - i) (t ∷ ts) in omega arith) more in
      chunk-Placed start total i n (t ∷ ts) s d.1 s' len (omega arith) (omega arith)
        (handed ∙ ap (λ c. s.handed ++ (c ∷ [])) built) cap
        (subst (λ m. Placed start total (i + n) (drop m (t ∷ ts)) d.1 s') size
          (subst (λ j. Placed start total j (drop (end - i) (t ∷ ts)) d.1 s') last below))

  finish-ok :
      (total n : ℕ) (o : Option (Done (Unit {0}))) (s s' : Session)
      → finish llama total o ≡ some (ok n, s')
      → (o ≡ some (ok tt, session s o))
        × (n ≡ total)
        × (s'.n_cur ≡ total)
        × (s'.handed ≡ (session s o).handed)
  unfolding finish
  finish-ok total n none s s' h = absurd (none-some h)
  finish-ok total n (some (err e, s1)) s s' h =
      let bad : failure_of e ≡ ok n = ap outcome_of h in cc bad
  finish-ok total n (some (ok _, s1)) s s' h =
      let value : reached total ≡ ok n = ap outcome_of h in
      let same : record s1 { n_cur = total } ≡ s' = ap (session_of s) h in
      (refl, sym (cc value), ap (λ r. r.n_cur) (sym same), ap (λ r. r.handed) (sym same))

  -- A prefill that succeeds puts the prompt's tokens, in order, at consecutive positions from the
  -- session's position on, asks for logits for the last one alone, hands over no batch above the
  -- capacity, and leaves the session's position behind the prompt and inside the context.
  pub prefill-Placed :
      (prompt : List ℕ) (n : ℕ) (s s' : Session)
      → prefill llama prompt s ≡ some (ok n, s')
      → (n ≡ s.n_cur + length prompt)
        × (s'.n_cur ≡ n)
        × (n < s.max_seq_len)
        × Placed s.n_cur (length prompt) 0 prompt s s'
  unfolding prefill
  prefill-Placed [] n s s' h =
      let bad : failure_of SessionError.empty_prompt ≡ ok n = ap outcome_of h in cc bad
  prefill-Placed (t ∷ ts) n s s' h =
      let total = suc (length ts) in
      elim (Bool-cases (ltb (s.n_cur + total) s.max_seq_len)) [
        | inl room ↦
            let o = prefill_chunks llama total s.n_cur total 0 (t ∷ ts) s in
            let (ran, value, at_end, handed) =
              finish-ok (s.n_cur + total) n o s s' (rw (room, prefill) at h) in
            let (bs, more, same, bounds) =
              prefill_chunks-Placed total s.n_cur total 0 (t ∷ ts) s (session s o) tt (omega arith)
                ran in
            (
              value,
              at_end ∙ sym value,
              (let lt = ltb→lt (s.n_cur + total) s.max_seq_len room in omega arith),
              (bs, handed ∙ more, same, bounds),
            )
        | inr full ↦
            let bad : failure_of SessionError.exceeds_context ≡ ok n =
              ap outcome_of (rw (full, prefill) at h) in
            cc bad
      ]
