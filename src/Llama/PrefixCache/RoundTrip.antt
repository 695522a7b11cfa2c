-- ===== src/Llama/PrefixCache/RoundTrip.antt =====
-- A sequence that is saved and loaded again.
use chitin_model_api.Llama.PrefixCache.{
  Kv, StateFiles, has_nul, c_path, saved, save, applied, load, save_seq, positioned, load_seq,
}
use chitin_model_api.Llama.Session.{Session}
use chitin_model_api.Prelude.Lists.{length}
use chitin_model_api.Prelude.Result.{ok}
use chitin_model_api.Prelude.Tests.{◌==◌, Bool-cases}
use chitin_model_api.Prelude.Text.{Bytes}
use chitin_model_api.Prelude.{
  ℕ, zero, suc, ◌≤◌, ◌≡◌, refl, ap, inl, inr, true, false, List, max, arith,
}

-- What llama.cpp documents of its files: a save that writes bytes leaves a file, from which a load
-- with room for the tokens reads some bytes, the tokens and the state. A vector has at least the
-- capacity that is asked for.
pub record FileLaws (files : StateFiles) : Type 0 where
  pub saved_exists :
      (kv : Kv) (path : Bytes) (seq n : ℕ) (tokens : List ℕ) (fs fs' : files.F)
      → files.save_file kv path seq tokens fs ≡ (suc n, fs')
      → files.exists path fs' ≡ true
  pub saved_loads :
      (kv kv' : Kv) (path : Bytes) (seq n capacity : ℕ) (tokens : List ℕ) (fs fs' : files.F)
      → files.save_file kv path seq tokens fs ≡ (suc n, fs')
      → length tokens ≤ capacity
      → (m : ℕ) × (files.load_file path seq capacity fs' kv'
          ≡ record { read = suc m; tokens = tokens; kv = kv })
  pub capacity_enough : (n : ℕ) → n ≤ files.with_capacity n

module _ (files : StateFiles) (laws : FileLaws files) where
  saved-written :
      (path : Bytes) (r : ℕ × files.F) (n : ℕ) (fs' : files.F)
      → saved files path r ≡ (ok n, fs')
      → (k : ℕ) × (r ≡ (suc k, fs'))
  unfolding saved
  saved-written path (zero, fs) n fs' e = absurd (cc (ap (λ x. x.0) e))
  saved-written path (suc k, fs) n fs' e = (k, ap (λ g. (suc k, g)) (ap (λ x. x.1) e))

  plain_path :
      (kv : Kv) (path : Bytes) (tokens : List ℕ) (fs fs' : files.F) (n : ℕ)
      → save files kv path 0 tokens fs ≡ (ok n, fs')
      → has_nul path ≡ false
  unfolding save c_path
  plain_path kv path tokens fs fs' n e = elim (Bool-cases (has_nul path)) [
    | inl h ↦ let k = rw (h, save) at e in absurd (cc (ap (λ x. x.0) k))
    | inr h ↦ h
  ]

  save-written :
      (kv : Kv) (path : Bytes) (tokens : List ℕ) (fs fs' : files.F) (n : ℕ)
      → has_nul path ≡ false
      → save files kv path 0 tokens fs ≡ (ok n, fs')
      → (k : ℕ) × (files.save_file kv path 0 tokens fs ≡ (suc k, fs'))
  unfolding save c_path
  save-written kv path tokens fs fs' n h e = saved-written path _ n fs' (rw (h, save) at e)

  room : (max_tokens : ℕ) → (files.with_capacity (max max_tokens 1) == 0) ≡ false
  room max_tokens = let h = laws.capacity_enough (max max_tokens 1) in ground (arith, h)

  load-saved :
      (kv kv' : Kv) (path : Bytes) (tokens : List ℕ) (fs fs' : files.F) (k capacity : ℕ)
      → has_nul path ≡ false
      → (capacity == 0) ≡ false
      → length tokens ≤ capacity
      → files.save_file kv path 0 tokens fs ≡ (suc k, fs')
      → (m : ℕ) × (load files kv' path 0 capacity fs' ≡ ok (suc m, (tokens, kv)))
  unfolding load c_path applied
  load-saved kv kv' path tokens fs fs' k capacity h c l e =
      let x = laws.saved_exists kv path 0 k tokens fs fs' e in
      let (m, f) = laws.saved_loads kv kv' path 0 k capacity tokens fs fs' e l in
      (m, rw (x, h, c, f, load) refl)

  load_seq-loaded :
      (path : Bytes) (max_tokens m : ℕ) (tokens : List ℕ) (kv : Kv) (s : Session) (fs : files.F)
      → load files s.handed path 0 (files.with_capacity (max max_tokens 1)) fs
        ≡ ok (suc m, (tokens, kv))
      → load_seq files path max_tokens s fs
        ≡ (ok (tokens, suc m), record s { n_cur = length tokens; handed = kv })
  unfolding load_seq positioned
  load_seq-loaded path max_tokens m tokens kv s fs e = rw (e, load_seq) refl

  -- A sequence that was saved is loaded into any session, with its tokens and its state, if there is
  -- room for the tokens; the session is then behind its last token.
  pub save_seq-load_seq :
      (path : Bytes) (tokens : List ℕ) (s s' : Session) (n max_tokens : ℕ) (fs fs' : files.F)
      → save_seq files path tokens s fs ≡ (ok n, fs')
      → length tokens ≤ max_tokens
      → (m : ℕ) × (load_seq files path max_tokens s' fs'
          ≡ (ok (tokens, suc m), record s' { n_cur = length tokens; handed = s.handed }))
  unfolding save_seq
  save_seq-load_seq path tokens s s' n max_tokens fs fs' e l =
      let h = plain_path s.handed path tokens fs fs' n e in
      let (k, f) = save-written s.handed path tokens fs fs' n h e in
      let c = laws.capacity_enough (max max_tokens 1) in
      let (m, g) =
        load-saved s.handed s'.handed path tokens fs fs' k _ h (room max_tokens)
          (omega (arith, l, c)) f in
      (m, load_seq-loaded path max_tokens m tokens s.handed s' fs' g)
