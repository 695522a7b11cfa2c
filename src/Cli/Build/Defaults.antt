-- ===== src/Cli/Build/Defaults.antt =====
-- The slot that is built when no backend is named.
use chitin_model_api.Cli.Build.{
  Built, Accel, gpu, cpu, subprocess_slot, accel_of, build_llama_slot, build_litertlm_slot,
  build_slot, backend_of, slot_for,
}
use chitin_model_api.Cli.{Env, Args, build_subprocess_slot, default_backend, is_some}
use chitin_model_api.Cli.Flags.{BackendKind, llama_cpp, lite_rt_lm, subprocess, stub}
use chitin_model_api.Llama.Slot.Path.{FileSystem}
use chitin_model_api.Prelude.Result.{Result, ok, err, ◌>>=◌}
use chitin_model_api.Prelude.Tests.{Option-cases}
use chitin_model_api.Prelude.Text.{Bytes, codes, bytes_eq}
use chitin_model_api.Prelude.{
  ◌≡◌, ◌⊎◌, refl, ap, ◌∙◌, inl, inr, Bool, true, false, none, some, arith,
}

abbrev Builds : Result Bytes Built → Type 0
Builds r = (b : Built) × (r ≡ ok b)

abbrev is_ok : Result Bytes Built → Bool
is_ok (ok b) = true
is_ok (err e) = false

builds : (r : Result Bytes Built) → is_ok r ≡ true → Builds r
builds (ok b) h = (b, refl)
builds (err e) h = absurd (cc h)

module _ (env : Env) (fs : FileSystem) (a : Args) where
  accel-Builds :
      (a.litertlm_accel ≡ codes "gpu") ⊎ (a.litertlm_accel ≡ codes "cpu")
      → (accel : Accel) × (accel_of a.litertlm_accel ≡ ok accel)
  unfolding accel_of bytes_eq
  accel-Builds (inl e) = (gpu, rw e refl)
  accel-Builds (inr e) = (cpu, rw e refl)

  litertlm-Builds :
      (path : Bytes)
      → a.model_path ≡ some path
      → (a.litertlm_accel ≡ codes "gpu") ⊎ (a.litertlm_accel ≡ codes "cpu")
      → Builds (build_litertlm_slot env true a)
  unfolding build_litertlm_slot
  litertlm-Builds path e g =
      let (accel, f) = accel-Builds g in
      builds (build_litertlm_slot env true a) (rw (e, f, is_ok, build_litertlm_slot) refl)

  llama-Builds : (path : Bytes) → a.model_path ≡ some path → Builds (build_llama_slot env fs true a)
  unfolding build_llama_slot
  llama-Builds path e =
      builds (build_llama_slot env fs true a) (rw (e, is_ok, build_llama_slot) refl)

  subprocess-Builds :
      (bin path : Bytes)
      → a.llama_bin ≡ some bin
      → a.model_path ≡ some path
      → Builds (build_subprocess_slot env a >>= λ s. ok (subprocess_slot s))
  unfolding build_subprocess_slot
  subprocess-Builds bin path e f =
      builds (build_subprocess_slot env a >>= λ s. ok (subprocess_slot s))
        (rw (e, f, is_ok, build_subprocess_slot) refl)

  -- What is built once the backend is chosen.
  chosen :
      (l c : Bool) (kind : BackendKind)
      → a.backend ≡ none
      → default_backend l c a ≡ kind
      → Builds (build_slot env fs l c kind a)
      → Builds (slot_for env fs l c a)
  unfolding slot_for backend_of
  chosen l c kind h e (b, f) =
      let k : backend_of l c a ≡ kind = rw (h, backend_of) e in
      (b, ap (λ x. build_slot env fs l c x a) k ∙ f)

  without_model : (l c : Bool) → a.model_path ≡ none → default_backend l c a ≡ stub
  unfolding default_backend is_some
  without_model l c e = ground (e, arith)

  with_bin :
      (bin path : Bytes)
      → a.llama_bin ≡ some bin
      → a.model_path ≡ some path
      → default_backend false false a ≡ subprocess
  unfolding default_backend is_some
  with_bin bin path e f = rw (e, f, default_backend) refl

  without_bin : a.llama_bin ≡ none → default_backend false false a ≡ stub
  unfolding default_backend is_some
  without_bin e = rw (e, default_backend) refl

  with_model :
      (path : Bytes) (c : Bool)
      → a.model_path ≡ some path
      → (default_backend true c a ≡ lite_rt_lm) × (default_backend false true a ≡ llama_cpp)
  unfolding default_backend is_some
  with_model path c e = (rw (e, default_backend) refl, rw (e, default_backend) refl)

  stub-Builds : (l c : Bool) → Builds (build_slot env fs l c stub a)
  unfolding build_slot
  stub-Builds l c = (_, refl)

  -- With a model, by what is compiled in and whether there is a program to run.
  model-Builds :
      (l c : Bool) (path : Bytes)
      → a.backend ≡ none
      → a.model_path ≡ some path
      → (a.litertlm_accel ≡ codes "gpu") ⊎ (a.litertlm_accel ≡ codes "cpu")
      → Builds (slot_for env fs l c a)
  unfolding build_slot
  model-Builds true c path h e g =
      chosen true c lite_rt_lm h (with_model path c e).0 (litertlm-Builds path e g)
  model-Builds false true path h e g =
      chosen false true llama_cpp h (with_model path true e).1 (llama-Builds path e)
  model-Builds false false path h e g = elim (Option-cases a.llama_bin) [
    | inl f ↦ chosen false false stub h (without_bin f) (stub-Builds false false)
    | inr (bin, f) ↦
        chosen false false subprocess h (with_bin bin path f e) (subprocess-Builds bin path f e)
  ]

  -- Without a named backend, a slot is built up to the loading of its model, whichever backends are
  -- compiled in and whichever paths are given, if the accelerator is `gpu` or `cpu`.
  pub slot_for-Builds :
      (l c : Bool)
      → a.backend ≡ none
      → (a.litertlm_accel ≡ codes "gpu") ⊎ (a.litertlm_accel ≡ codes "cpu")
      → (b : Built) × (slot_for env fs l c a ≡ ok b)
  slot_for-Builds l c h g = elim (Option-cases a.model_path) [
    | inl e ↦ chosen l c stub h (without_model l c e) (stub-Builds l c)
    | inr (path, e) ↦ model-Builds l c path h e g
  ]
