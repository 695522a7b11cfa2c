-- ===== src/Llama/Session/Generation.antt =====
-- chitin_llama/src/session.rs: what a generation produces.
use chitin_model_api.Llama.Session.{
  Llama, Session, Done, step, sampled, after_push, after_step, produce,
}
use chitin_model_api.Prelude.Lists.{length, All}
use chitin_model_api.Prelude.Result.{ok, err}
use chitin_model_api.Prelude.Tests.{Bool-cases}
use chitin_model_api.Prelude.{ℕ, zero, suc, ◌≤◌, ◌≡◌, false, List, arith, inl, inr}

module _ (llama : Llama) where
  -- At most `n` tokens, none of which ends the generation.
  abbrev pub Within : ℕ → List ℕ × Session → Type 0
  Within n out = (length out.0 ≤ n) × All (λ t. llama.is_eog t ≡ false) out.0

  after_push-Within :
      (n : ℕ) (again : Session → List ℕ × Session) (token : ℕ) (d : Done (Unit {0}))
      → llama.is_eog token ≡ false
      → ((s : Session) → Within n (again s))
      → Within (suc n) (after_push llama again token d)
  unfolding after_push
  after_push-Within n again token (err e, s) live below = (omega arith, (live, tt))
  after_push-Within n again token (ok _, s) live below =
      let (short, lives) = below s in (omega arith, (live, lives))

  -- `generate_raw` returns at most `max_tokens` tokens and no end-of-generation token.
  pub produce-Within : (n : ℕ) (s : Session) → Within n (produce llama n s)
  unfolding produce step after_step
  produce-Within zero s = (omega arith, tt)
  produce-Within (suc n) s = elim (Bool-cases (llama.is_eog (sampled llama s))) [
    | inl stops ↦ rw (stops, produce) (omega arith, tt)
    | inr live ↦
        rw (live, produce)
          (after_push-Within n (produce llama n) (sampled llama s) _ live (produce-Within n))
  ]
