-- ===== src/Cli/Settings/Effects.antt =====
-- model_api_server/src/main.rs: what each flag of the command line says, as a table without the loop.
use chitin_model_api.Cli.Flags.{
  Flag, text_flag, BackendKind, llama_cpp, lite_rt_lm, subprocess, stub, parse_backend, find_word,
}
use chitin_model_api.Cli.{Env, Args, take_flag, prompt_value, trim_end}
use chitin_model_api.Prelude.Result.{ok}
use chitin_model_api.Prelude.Text.{Bytes, codes, bytes_eq, strip_prefix}
use chitin_model_api.Prelude.{ℕ, ◌≡◌, refl, List, [], ◌∷◌, ◌++◌, none, some}

abbrev pub kind_name : BackendKind → Bytes
kind_name llama_cpp = codes "llama-cpp"
kind_name lite_rt_lm = codes "litert-lm"
kind_name subprocess = codes "subprocess"
kind_name stub = codes "stub"

-- The words of one flag, and the field that they set; every other field stays.
pub data Setting (env : Env) : Args → List Bytes → Args → Type 0 where
  socket_is :
      (a : Args) (v : Bytes)
      → Setting env a (codes "--socket" ∷ v ∷ []) (record a { socket_path = some v })
  model_is :
      (a : Args) (v : Bytes)
      → Setting env a (codes "--model" ∷ v ∷ []) (record a { model_path = some v })
  model_name_is :
      (a : Args) (v : Bytes)
      → Setting env a (codes "--model-name" ∷ v ∷ []) (record a { model_name = some v })
  llama_bin_is :
      (a : Args) (v : Bytes)
      → Setting env a (codes "--llama-bin" ∷ v ∷ []) (record a { llama_bin = some v })
  llama_lib_dir_is :
      (a : Args) (v : Bytes)
      → Setting env a (codes "--llama-lib-dir" ∷ v ∷ []) (record a { llama_lib_dir = some v })
  cache_dir_is :
      (a : Args) (v : Bytes)
      → Setting env a
          (codes "--litertlm-cache-dir" ∷ v ∷ [])
          (record a { litertlm_cache_dir = some v })
  accel_is :
      (a : Args) (v : Bytes)
      → Setting env a (codes "--litertlm-accel" ∷ v ∷ []) (record a { litertlm_accel = v })
  backend_is :
      (a : Args) (k : BackendKind)
      → Setting env a (codes "--backend" ∷ kind_name k ∷ []) (record a { backend = some k })
  llama_ngl_is :
      (a : Args) (v : Bytes) (n : ℕ)
      → env.parse_i32 v ≡ ok n
      → Setting env a (codes "--llama-ngl" ∷ v ∷ []) (record a { llama_ngl = n })
  max_num_tokens_is :
      (a : Args) (v : Bytes) (n : ℕ)
      → env.parse_i32 v ≡ ok n
      → Setting env a
          (codes "--litertlm-max-num-tokens" ∷ v ∷ [])
          (record a { litertlm_max_num_tokens = n })
  visual_token_budget_is :
      (a : Args) (v : Bytes) (n : ℕ)
      → env.parse_i32 v ≡ ok n
      → Setting env a
          (codes "--litertlm-visual-token-budget" ∷ v ∷ [])
          (record a { litertlm_visual_token_budget = n })
  prefix_cache_size_is :
      (a : Args) (v : Bytes) (n : ℕ)
      → env.parse_usize v ≡ ok n
      → Setting env a
          (codes "--litertlm-prefix-cache-size" ∷ v ∷ [])
          (record a { litertlm_prefix_cache_size = n })
  session_pool_size_is :
      (a : Args) (v : Bytes) (n : ℕ)
      → env.parse_usize v ≡ ok n
      → Setting env a
          (codes "--litertlm-session-pool-size" ∷ v ∷ [])
          (record a { litertlm_prefix_cache_size = n })
  prefix_cache_ttl_is :
      (a : Args) (v : Bytes) (n : ℕ)
      → env.parse_u64 v ≡ ok n
      → Setting env a
          (codes "--litertlm-prefix-cache-ttl-secs" ∷ v ∷ [])
          (record a { litertlm_prefix_cache_ttl_secs = n })
  session_ttl_is :
      (a : Args) (v : Bytes) (n : ℕ)
      → env.parse_u64 v ≡ ok n
      → Setting env a
          (codes "--litertlm-session-ttl-secs" ∷ v ∷ [])
          (record a { litertlm_prefix_cache_ttl_secs = n })
  max_tokens_is :
      (a : Args) (v : Bytes) (n : ℕ)
      → env.parse_usize v ≡ ok n
      → Setting env a (codes "--max-tokens" ∷ v ∷ []) (record a { max_tokens = n })
  max_seq_len_is :
      (a : Args) (v : Bytes) (n : ℕ)
      → env.parse_u32 v ≡ ok n
      → Setting env a (codes "--max-seq-len" ∷ v ∷ []) (record a { max_seq_len = n })
  system_prompt_is :
      (a : Args) (v : Bytes)
      → strip_prefix (codes "@") v ≡ none
      → Setting env a
          (codes "--litertlm-system-prompt" ∷ v ∷ [])
          (record a { litertlm_system_prompt = some v })
  system_prompt_in :
      (a : Args) (path t : Bytes)
      → env.read_to_string path ≡ ok t
      → Setting env a
          (codes "--litertlm-system-prompt" ∷ (b'@' ∷ path) ∷ [])
          (record a { litertlm_system_prompt = some (trim_end t) })
  no_system_prompt_is :
      (a : Args)
      → Setting env a
          (codes "--litertlm-no-system-prompt" ∷ [])
          (record a { litertlm_system_prompt = none })

-- A flag that the loop knows, which takes these words and leaves those arguments.
abbrev pub Taken : Env → Args → List Bytes → Args → Type 0
Taken env a words a' =
    (f : Flag) × (value : List Bytes) × (words ≡ text_flag f ∷ value)
    × ((rest : List Bytes) → take_flag env f a (value ++ rest) ≡ ok (a', rest))

module _ (env : Env) where
  backend-Taken :
      (a : Args) (k : BackendKind) (rest : List Bytes)
      → take_flag env Flag.backend a ((kind_name k ∷ []) ++ rest)
        ≡ ok (record a { backend = some k }, rest)
  unfolding take_flag parse_backend find_word bytes_eq
  backend-Taken a llama_cpp rest = refl
  backend-Taken a lite_rt_lm rest = refl
  backend-Taken a subprocess rest = refl
  backend-Taken a stub rest = refl

  pub Setting-Taken :
      {a a' : Args} {words : List Bytes} → Setting env a words a' → Taken env a words a'
  unfolding take_flag prompt_value strip_prefix
  Setting-Taken (socket_is a v) = (Flag.socket, v ∷ [], refl, λ rest. refl)
  Setting-Taken (model_is a v) = (Flag.model, v ∷ [], refl, λ rest. refl)
  Setting-Taken (model_name_is a v) = (Flag.model_name, v ∷ [], refl, λ rest. refl)
  Setting-Taken (llama_bin_is a v) = (Flag.llama_bin, v ∷ [], refl, λ rest. refl)
  Setting-Taken (llama_lib_dir_is a v) = (Flag.llama_lib_dir, v ∷ [], refl, λ rest. refl)
  Setting-Taken (cache_dir_is a v) = (Flag.cache_dir, v ∷ [], refl, λ rest. refl)
  Setting-Taken (accel_is a v) = (Flag.accel, v ∷ [], refl, λ rest. refl)
  Setting-Taken (backend_is a k) = (Flag.backend, kind_name k ∷ [], refl, backend-Taken a k)
  Setting-Taken (llama_ngl_is a v n e) = (Flag.llama_ngl, v ∷ [], refl, λ rest. rw e refl)
  Setting-Taken (max_num_tokens_is a v n e) = (Flag.max_num_tokens, v ∷ [], refl, λ rest. rw e refl)
  Setting-Taken (visual_token_budget_is a v n e) =
      (Flag.visual_token_budget, v ∷ [], refl, λ rest. rw e refl)
  Setting-Taken (prefix_cache_size_is a v n e) =
      (Flag.prefix_cache_size, v ∷ [], refl, λ rest. rw e refl)
  Setting-Taken (session_pool_size_is a v n e) =
      (Flag.session_pool_size, v ∷ [], refl, λ rest. rw e refl)
  Setting-Taken (prefix_cache_ttl_is a v n e) =
      (Flag.prefix_cache_ttl_secs, v ∷ [], refl, λ rest. rw e refl)
  Setting-Taken (session_ttl_is a v n e) = (Flag.session_ttl_secs, v ∷ [], refl, λ rest. rw e refl)
  Setting-Taken (max_tokens_is a v n e) = (Flag.max_tokens, v ∷ [], refl, λ rest. rw e refl)
  Setting-Taken (max_seq_len_is a v n e) = (Flag.max_seq_len, v ∷ [], refl, λ rest. rw e refl)
  Setting-Taken (system_prompt_is a v e) =
      (Flag.system_prompt, v ∷ [], refl, λ rest. rw (e, prompt_value) refl)
  Setting-Taken (system_prompt_in a path t e) =
      (Flag.system_prompt, (b'@' ∷ path) ∷ [], refl, λ rest. rw e refl)
  Setting-Taken (no_system_prompt_is a) = (Flag.no_system_prompt, [], refl, λ rest. refl)
