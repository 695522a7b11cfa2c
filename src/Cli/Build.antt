-- ===== src/Cli/Build.antt =====
-- model_api_server/src/main.rs: the slot that the arguments ask for, up to the loading of its model,
-- with `LlamaSlot::spawn` of model_api_server/src/llama_slot.rs up to `Session::load`. A path is its
-- text; what the file system says when a cache directory is made is only logged.
pub mod Defaults
use chitin_model_api.Cli.Flags.{BackendKind, llama_cpp, lite_rt_lm, subprocess, stub}
use chitin_model_api.Cli.{Env, Args, build_subprocess_slot, default_backend}
use chitin_model_api.Llama.Slot.Path.{FileSystem, resolve_gguf_path}
use chitin_model_api.Prelude.Result.{Result, ok, err, ◌>>=◌}
use chitin_model_api.Prelude.Tests.{ltb, if◌then◌else◌}
use chitin_model_api.Prelude.Text.{Bytes, codes, bytes_eq}
use chitin_model_api.Prelude.{ℕ, Bool, true, false, ◌&&◌, ◌++◌, Option, none, some}
use chitin_model_api.Server.Slot.Subprocess.{SubprocessSlot}

-- `n_gpu_layers` is -1, so all layers.
pub data Layers : Type 0 where
  all_layers : Layers
  layers : ℕ → Layers

pub record LoadConfig : Type 0 where
  pub gguf_path : Bytes
  pub max_seq_len : ℕ
  pub n_gpu_layers : Layers
  pub n_batch : ℕ
  pub draft_gguf_path : Option Bytes
  pub mtp_draft_n : ℕ

pub data Accel : Type 0 where
  gpu cpu : Accel

pub record LiteRtLmConfig : Type 0 where
  pub model_path : Bytes
  pub model_name : Bytes
  pub backend : Accel
  pub max_num_tokens : ℕ
  pub visual_token_budget : Option ℕ
  pub prefix_cache_size : ℕ
  pub ttl_secs : ℕ
  pub system_prompt : Option Bytes
  pub cache_dir : Option Bytes

-- What is left to load.
pub data Built : Type 0 where
  llama_slot : Bytes → LoadConfig → Built
  litertlm_slot : LiteRtLmConfig → Built
  subprocess_slot : SubprocessSlot → Built
  stub_slot : Bytes → Built

unfoldable pub accel_of : Bytes → Result Bytes Accel
unfolding bytes_eq
accel_of s =
    if bytes_eq s (codes "gpu")
    then ok gpu
    else if bytes_eq s (codes "cpu")
    then ok cpu
    else err (codes "--litertlm-accel: expected 'gpu' or 'cpu', got '" ++ (s ++ codes "'"))

-- An i32 that is above 0, as its bits.
unfoldable pub budget_of : ℕ → Option ℕ
budget_of n = if ltb 0 n && ltb n 2147483648 then some n else none

-- The configuration that `LlamaSlot::spawn` loads.
unfoldable pub load_config : FileSystem → Bytes → Option Bytes → ℕ → LoadConfig
load_config fs model_dir gguf_path max_seq_len = record {
  gguf_path = elim gguf_path [ some path ↦ path | none ↦ resolve_gguf_path fs model_dir ];
  max_seq_len = max_seq_len;
  n_gpu_layers = all_layers;
  n_batch = 128;
  draft_gguf_path = none;
  mtp_draft_n = 0;
}

-- The backend that `main` takes.
unfoldable pub backend_of : Bool → Bool → Args → BackendKind
unfolding default_backend
backend_of with_litert_lm with_llama_cpp a = elim a.backend [
  | some k ↦ k
  | none ↦ default_backend with_litert_lm with_llama_cpp a
]

module _ (env : Env) where
  unfoldable pub derive_model_name : Bytes → Bytes
  derive_model_name path = elim (env.file_stem path) [ some s ↦ s | none ↦ codes "unknown" ]

  unfoldable pub model_name_of : Args → Bytes → Bytes
  unfolding derive_model_name
  model_name_of a path = elim a.model_name [ some n ↦ n | none ↦ derive_model_name path ]

  unfoldable pub build_llama_slot : FileSystem → Bool → Args → Result Bytes Built
  unfolding model_name_of load_config
  build_llama_slot fs false a =
      err (codes "--backend llama-cpp requires building with --features llama-cpp")
  build_llama_slot fs true a = elim a.model_path [
    | none ↦ err (codes "--model <gguf> is required for --backend llama-cpp")
    | some path ↦ ok (
        llama_slot (model_name_of a path) (
          load_config fs (elim (env.parent path) [ some d ↦ d | none ↦ codes "" ]) (some path)
            a.max_seq_len))
  ]

  litertlm_config : Args → Bytes → Accel → LiteRtLmConfig
  unfolding model_name_of budget_of
  litertlm_config a path accel = record {
    model_path = path;
    model_name = model_name_of a path;
    backend = accel;
    max_num_tokens = a.litertlm_max_num_tokens;
    visual_token_budget = budget_of a.litertlm_visual_token_budget;
    prefix_cache_size = a.litertlm_prefix_cache_size;
    ttl_secs = a.litertlm_prefix_cache_ttl_secs;
    system_prompt = a.litertlm_system_prompt;
    cache_dir = a.litertlm_cache_dir;
  }

  unfoldable pub build_litertlm_slot : Bool → Args → Result Bytes Built
  unfolding accel_of litertlm_config
  build_litertlm_slot false a =
      err (codes "--backend litert-lm requires building with --features litert-lm")
  build_litertlm_slot true a = elim a.model_path [
    | none ↦ err (codes "--model <litertlm> is required for --backend litert-lm")
    | some path ↦
        accel_of a.litertlm_accel >>= λ accel. ok (litertlm_slot (litertlm_config a path accel))
  ]

  -- The two flags say which backends are compiled in.
  unfoldable pub build_slot : FileSystem → Bool → Bool → BackendKind → Args → Result Bytes Built
  unfolding build_llama_slot build_litertlm_slot build_subprocess_slot
  build_slot fs with_litert_lm with_llama_cpp llama_cpp a = build_llama_slot fs with_llama_cpp a
  build_slot fs with_litert_lm with_llama_cpp lite_rt_lm a = build_litertlm_slot with_litert_lm a
  build_slot fs with_litert_lm with_llama_cpp subprocess a =
      build_subprocess_slot env a >>= λ s. ok (subprocess_slot s)
  build_slot fs with_litert_lm with_llama_cpp stub a = ok (stub_slot (codes "stub-no-backend"))

  -- `main`, from the arguments to the slot.
  unfoldable pub slot_for : FileSystem → Bool → Bool → Args → Result Bytes Built
  unfolding build_slot backend_of
  slot_for fs with_litert_lm with_llama_cpp a =
      build_slot fs with_litert_lm with_llama_cpp (backend_of with_litert_lm with_llama_cpp a) a
