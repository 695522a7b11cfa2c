-- ===== src/Llama/Session/Returns.antt =====
-- chitin_llama/src/session.rs: the fuel of a prefill.
use chitin_model_api.Llama.Session.Prefill.{run_batch-ok}
use chitin_model_api.Llama.Session.{
  Llama, Session, Done, cells, run_batch, next, prefill_chunks, finish, prefill, generate_raw,
}
use chitin_model_api.Prelude.Lists.{length, take, drop, length-drop}
use chitin_model_api.Prelude.Result.{ok, err}
use chitin_model_api.Prelude.Tests.{ltb, Bool-cases}
use chitin_model_api.Prelude.{
  ℕ, zero, suc, ◌+◌, ◌-◌, ◌≤◌, min, ◌≡◌, refl, List, [], ◌∷◌, Option, none, some, arith, inl, inr,
}

abbrev Returns : {A : Type 0} → Option A → Type 0
Returns {A = A} o = (r : A) × (o ≡ some r)

module _ (llama : Llama) where
  next-Returns :
      (again : Session → Option (Done (Unit {0}))) (d : Done (Unit {0}))
      → ((u : Unit {0}) → d ≡ (ok u, d.1) → Returns (again d.1))
      → Returns (next llama again d)
  unfolding next
  next-Returns again (err e, s) below = ((err e, s), refl)
  next-Returns again (ok u, s) below = below u refl

  prefill_chunks_total :
      (fuel start total i : ℕ) (ts : List ℕ) (s : Session)
      → i + length ts ≡ total
      → length ts ≤ fuel
      → 1 ≤ s.batch_capacity
      → Returns (prefill_chunks llama fuel start total i ts s)
  unfolding prefill_chunks
  prefill_chunks_total fuel start total i [] s len h cap = ((ok tt, s), refl)
  prefill_chunks_total zero start total i (t ∷ ts) s len h cap = absurd (omega arith)
  prefill_chunks_total (suc fuel) start total i (t ∷ ts) s len h cap =
      let end = min (i + s.batch_capacity) total in
      let cs = cells start total end i (take (end - i) (t ∷ ts)) in
      next-Returns (prefill_chunks llama fuel start total end (drop (end - i) (t ∷ ts)))
        (run_batch llama cs s)
        (λ u ran.
          let (_, same) = run_batch-ok llama cs s ((run_batch llama cs s).1) u ran in
          prefill_chunks_total fuel start total end (drop (end - i) (t ∷ ts)) _
            (let e = length-drop (end - i) (t ∷ ts) in omega arith)
            (let e = length-drop (end - i) (t ∷ ts) in omega arith) (omega arith))

  finish-Returns :
      (total : ℕ) (o : Option (Done (Unit {0}))) → Returns o → Returns (finish llama total o)
  unfolding finish
  finish-Returns total none (r, e) = cc e
  finish-Returns total (some (err e, s)) _ = ((err e, s), refl)
  finish-Returns total (some (ok _, s)) _ = (_, refl)

  prefill_total :
      (prompt : List ℕ) (s : Session) → 1 ≤ s.batch_capacity → Returns (prefill llama prompt s)
  unfolding prefill
  prefill_total [] s cap = (_, refl)
  prefill_total (t ∷ ts) s cap =
      let total = suc (length ts) in
      let r =
        finish-Returns (s.n_cur + total) _
          (prefill_chunks_total total s.n_cur total 0 (t ∷ ts) s (omega arith) (omega arith) cap) in
      elim (Bool-cases (ltb (s.n_cur + total) s.max_seq_len)) [
        | inl room ↦ rw (room, prefill) r
        | inr full ↦ rw (full, prefill) (_, refl)
      ]

  after_prefill :
      (prompt : List ℕ) (max_tokens : ℕ) (s : Session) (d : Done ℕ)
      → prefill llama prompt s ≡ some d
      → Returns (generate_raw llama prompt max_tokens s)
  unfolding generate_raw
  after_prefill prompt max_tokens s (err e, s') h = rw (h, generate_raw) (_, refl)
  after_prefill prompt max_tokens s (ok n, s') h = rw (h, generate_raw) (_, refl)

  -- With a batch capacity of at least one, `generate_raw` returns on every prompt.
  pub generate_raw_total :
      (prompt : List ℕ) (max_tokens : ℕ) (s : Session)
      → 1 ≤ s.batch_capacity
      → (r : Done (List ℕ)) × (generate_raw llama prompt max_tokens s ≡ some r)
  generate_raw_total prompt max_tokens s cap =
      let (d, e) = prefill_total prompt s cap in after_prefill prompt max_tokens s d e
