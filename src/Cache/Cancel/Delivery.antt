-- ===== src/Cache/Cancel/Delivery.antt =====
-- Which conversation a signal cancels.
use chitin_model_api.Cache.Cancel.{
  Armed, idle, Among, without, arm, disarm, cancel_with, cancel_in_flight, Guarded, drops, signal,
  Reach, here, arms, next, Alone, at_start, starts, further,
}
use mathlib.Core.Path.{subst}
use chitin_model_api.Prelude.Lists.{length}
use chitin_model_api.Prelude.Tests.{ltb, Option-cases}
use chitin_model_api.Prelude.{
  ℕ, ◌≡◌, ◌⊎◌, refl, ap, sym, ◌∙◌, inl, inr, Bool, true, false, List, [], ◌∷◌, Option, none, some,
  arith,
}

-- What a signal does without a handle, and with one.
no_handle : (s : Armed) → s.cancel_token ≡ none → cancel_in_flight s ≡ (false, s)
unfolding cancel_in_flight cancel_with
no_handle s e = ap (λ o. cancel_with o s) e

with_handle :
    (s : Armed) (h : ℕ)
    → s.cancel_token ≡ some h
    → cancel_in_flight s ≡ (true, record s { cancelled = h ∷ s.cancelled })
unfolding cancel_in_flight cancel_with
with_handle s h e = ap (λ o. cancel_with o s) e

-- A signal leaves the token and the send loops as they are.
signal_same :
    (s t : Armed) (delivered : Bool)
    → cancel_in_flight s ≡ (delivered, t)
    → (s.cancel_token ≡ t.cancel_token) × (s.sending ≡ t.sending)
signal_same s t delivered e = elim (Option-cases s.cancel_token) [
  | inl f ↦
      let k = sym (no_handle s f) ∙ e in (ap (λ r. r.1.cancel_token) k, ap (λ r. r.1.sending) k)
  | inr (h, f) ↦
      let k = sym (with_handle s h f) ∙ e in (ap (λ r. r.1.cancel_token) k, ap (λ r. r.1.sending) k)
]

-- A handle in the token is that of a conversation in its send loop.
abbrev Live : Armed → Type 0
Live s = (h : ℕ) → s.cancel_token ≡ some h → Among h s.sending

arm-Live : (h : ℕ) (s : Armed) → Live (arm h s)
unfolding arm
arm-Live h s k e = inl (cc e)

Guarded-Live : {s t : Armed} → Guarded s t → Live s → Live t
unfolding disarm
Guarded-Live (drops s h m) l = λ k e. absurd (cc e)
Guarded-Live (signal s t d e) l =
    let (f, g) = signal_same s t d e in λ h k. subst (Among h) g (l h (f ∙ k))

Reach-Live : {s : Armed} → Reach idle s → Live s
Reach-Live here = λ h e. absurd (cc e)
Reach-Live (arms {t} r h) = arm-Live h t
Reach-Live (next r g) = Guarded-Live g (Reach-Live r)

-- A signal that reports a delivery has cancelled one conversation, and that one is in its send loop,
-- however requests and signals overlap.
pub cancel_in_flight-Live :
    (s t : Armed)
    → Reach idle s
    → cancel_in_flight s ≡ (true, t)
    → (h : ℕ) × Among h s.sending × (t ≡ record s { cancelled = h ∷ s.cancelled })
cancel_in_flight-Live s t r e = elim (Option-cases s.cancel_token) [
  | inl f ↦ let k = sym (no_handle s f) ∙ e in absurd (cc (ap (λ r. r.0) k))
  | inr (h, f) ↦ (h, Reach-Live r h f, ap (λ r. r.1) (sym e ∙ with_handle s h f))
]

-- No conversation is in its loop and the token is empty, or one is and the token has its handle.
abbrev Single : Option ℕ → List ℕ → Type 0
Single token sending =
    ((token ≡ none) × (sending ≡ [])) ⊎ ((h : ℕ) × (token ≡ some h) × (sending ≡ h ∷ []))

without_only : (h k : ℕ) → Among h (k ∷ []) → without h (k ∷ []) ≡ []
unfolding without
without_only h k (inl e) = ground (arith, e)
without_only h k (inr x) = absurd x

Guarded-Single :
    {s t : Armed} → Guarded s t → Single s.cancel_token s.sending → Single t.cancel_token t.sending
unfolding disarm
Guarded-Single (drops s h m) (inl (e, f)) = absurd (subst (Among h) f m)
Guarded-Single (drops s h m) (inr (k, e, f)) =
    inl (refl, ap (without h) f ∙ without_only h k (subst (Among h) f m))
Guarded-Single (signal s t d e) l = let (f, g) = signal_same s t d e in rw (← f, ← g) l

Alone-Single : {s : Armed} → Alone idle s → Single s.cancel_token s.sending
unfolding arm
Alone-Single at_start = inl (refl, refl)
Alone-Single (starts {t} r h e) = inr (h, refl, ap (λ ks. h ∷ ks) e)
Alone-Single (further r g) = Guarded-Single g (Alone-Single r)

-- If no request arms the token before the one in front of it has ended, a signal reports a delivery
-- exactly while a conversation is in its send loop.
pub cancel_in_flight_exact :
    (s : Armed) → Alone idle s → (cancel_in_flight s).0 ≡ ltb 0 (length s.sending)
cancel_in_flight_exact s r = elim (Alone-Single r) [
  | inl (e, f) ↦ ap (λ r. r.0) (no_handle s e) ∙ sym (ap (λ ks. ltb 0 (length ks)) f)
  | inr (h, e, f) ↦ ap (λ r. r.0) (with_handle s h e) ∙ sym (ap (λ ks. ltb 0 (length ks)) f)
]
