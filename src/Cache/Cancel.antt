-- ===== src/Cache/Cancel.antt =====
-- model_api_server/src/litertlm_slot.rs: `ArmCancel` and `cancel_in_flight`, over several requests
-- and signals that overlap. A handle is the number of its conversation. Each step locks the token, so
-- the steps come one after the other; what the engine does with a cancelled send is its own.
pub mod Delivery
use chitin_model_api.Prelude.Tests.{◌==◌, if◌then◌else◌}
use chitin_model_api.Prelude.{
  ℕ, ◌≡◌, ◌⊎◌, Bool, true, false, not, List, [], ◌∷◌, Option, none, some,
}

-- The token, the conversations in their send loop, and those that were cancelled, the last first.
pub record Armed : Type 0 where
  pub cancel_token : Option ℕ
  pub sending : List ℕ
  pub cancelled : List ℕ

abbrev pub idle : Armed
idle = record { cancel_token = none; sending = []; cancelled = [] }

abbrev pub Among : ℕ → List ℕ → Type 0
Among h [] = ⊥
Among h (k ∷ ks) = (h ≡ k) ⊎ Among h ks

unfoldable pub without : ℕ → List ℕ → List ℕ
without h [] = []
without h (k ∷ ks) = let rest = without h ks in if h == k then rest else k ∷ rest

-- `ArmCancel::new`, at the start of a send loop.
unfoldable pub arm : ℕ → Armed → Armed
arm h s = record s { cancel_token = some h; sending = h ∷ s.sending }

-- `Drop for ArmCancel`, at the end of the loop, on every path.
unfoldable pub disarm : ℕ → Armed → Armed
unfolding without
disarm h s = record s { cancel_token = none; sending = without h s.sending }

-- What the holder of the lock does with the token.
unfoldable pub cancel_with : Option ℕ → Armed → Bool × Armed
cancel_with none s = (false, s)
cancel_with (some h) s = (true, record s { cancelled = h ∷ s.cancelled })

unfoldable pub cancel_in_flight : Armed → Bool × Armed
unfolding cancel_with
cancel_in_flight s = cancel_with s.cancel_token s

-- The end of a send loop, or a signal.
pub data Guarded : Armed → Armed → Type 0 where
  drops : (s : Armed) (h : ℕ) → Among h s.sending → Guarded s (disarm h s)
  signal : (s t : Armed) (delivered : Bool) → cancel_in_flight s ≡ (delivered, t) → Guarded s t

-- Runs in which requests overlap.
pub data Reach (s : Armed) : Armed → Type 0 where
  here : Reach s s
  arms : {t : Armed} → Reach s t → (h : ℕ) → Reach s (arm h t)
  next : {t u : Armed} → Reach s t → Guarded t u → Reach s u

-- Runs in which a request arms the token only behind the end of the one before.
pub data Alone (s : Armed) : Armed → Type 0 where
  at_start : Alone s s
  starts : {t : Armed} → Alone s t → (h : ℕ) → t.sending ≡ [] → Alone s (arm h t)
  further : {t u : Armed} → Alone s t → Guarded t u → Alone s u
