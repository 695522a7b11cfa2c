-- ===== src/Cli/Flags.antt =====
-- model_api_server/src/main.rs: the words of the command line.
use chitin_model_api.Prelude.Result.{Result, ok, err}
use chitin_model_api.Prelude.Tests.{if◌then◌else◌}
use chitin_model_api.Prelude.Text.{Bytes, codes, bytes_eq}
use chitin_model_api.Prelude.{◌≡◌, refl, List, [], ◌∷◌, ◌++◌, Option, none, some}

pub data BackendKind : Type 0 where
  llama_cpp lite_rt_lm subprocess stub : BackendKind

pub data Flag : Type 0 where
  socket backend model model_name llama_bin llama_lib_dir llama_ngl accel max_num_tokens : Flag
  visual_token_budget prefix_cache_size session_pool_size prefix_cache_ttl_secs : Flag
  session_ttl_secs system_prompt no_system_prompt cache_dir max_tokens max_seq_len help : Flag

-- The first entry of a table under a word.
unfoldable pub find_word : {A : Type 0} → Bytes → List (Bytes × A) → Option A
find_word w [] = none
find_word w ((k, a) ∷ es) = let rest = find_word w es in if bytes_eq w k then some a else rest

abbrev pub text_flag : Flag → Bytes
text_flag Flag.socket = codes "--socket"
text_flag Flag.backend = codes "--backend"
text_flag Flag.model = codes "--model"
text_flag Flag.model_name = codes "--model-name"
text_flag Flag.llama_bin = codes "--llama-bin"
text_flag Flag.llama_lib_dir = codes "--llama-lib-dir"
text_flag Flag.llama_ngl = codes "--llama-ngl"
text_flag Flag.accel = codes "--litertlm-accel"
text_flag Flag.max_num_tokens = codes "--litertlm-max-num-tokens"
text_flag Flag.visual_token_budget = codes "--litertlm-visual-token-budget"
text_flag Flag.prefix_cache_size = codes "--litertlm-prefix-cache-size"
text_flag Flag.session_pool_size = codes "--litertlm-session-pool-size"
text_flag Flag.prefix_cache_ttl_secs = codes "--litertlm-prefix-cache-ttl-secs"
text_flag Flag.session_ttl_secs = codes "--litertlm-session-ttl-secs"
text_flag Flag.system_prompt = codes "--litertlm-system-prompt"
text_flag Flag.no_system_prompt = codes "--litertlm-no-system-prompt"
text_flag Flag.cache_dir = codes "--litertlm-cache-dir"
text_flag Flag.max_tokens = codes "--max-tokens"
text_flag Flag.max_seq_len = codes "--max-seq-len"
text_flag Flag.help = codes "--help"

abbrev entry : Flag → Bytes × Flag
entry f = (text_flag f, f)

abbrev flags : List (Bytes × Flag)
flags =
    entry Flag.socket
    ∷ entry Flag.backend
    ∷ entry Flag.model
    ∷ entry Flag.model_name
    ∷ entry Flag.llama_bin
    ∷ entry Flag.llama_lib_dir
    ∷ entry Flag.llama_ngl
    ∷ entry Flag.accel
    ∷ entry Flag.max_num_tokens
    ∷ entry Flag.visual_token_budget
    ∷ entry Flag.prefix_cache_size
    ∷ entry Flag.session_pool_size
    ∷ entry Flag.prefix_cache_ttl_secs
    ∷ entry Flag.session_ttl_secs
    ∷ entry Flag.system_prompt
    ∷ entry Flag.no_system_prompt
    ∷ entry Flag.cache_dir
    ∷ entry Flag.max_tokens
    ∷ entry Flag.max_seq_len
    ∷ (codes "-h", Flag.help)
    ∷ entry Flag.help
    ∷ []

-- The patterns of the loop's `match`.
unfoldable pub flag_of : Bytes → Option Flag
unfolding find_word
flag_of w = find_word w flags

abbrev backends : List (Bytes × BackendKind)
backends =
    (codes "llama-cpp", llama_cpp)
    ∷ (codes "llama", llama_cpp)
    ∷ (codes "litert-lm", lite_rt_lm)
    ∷ (codes "litertlm", lite_rt_lm)
    ∷ (codes "subprocess", subprocess)
    ∷ (codes "stub", stub)
    ∷ []

-- `BackendKind::parse`.
unfoldable pub parse_backend : Bytes → Result Bytes BackendKind
unfolding find_word
parse_backend w = elim (find_word w backends) [
  | none ↦ err (codes "unknown --backend: " ++ w)
  | some k ↦ ok k
]

-- Every flag's word is read as the flag.
pub flag_of-text_flag : (f : Flag) → flag_of (text_flag f) ≡ some f
unfolding flag_of find_word bytes_eq
flag_of-text_flag Flag.socket = refl
flag_of-text_flag Flag.backend = refl
flag_of-text_flag Flag.model = refl
flag_of-text_flag Flag.model_name = refl
flag_of-text_flag Flag.llama_bin = refl
flag_of-text_flag Flag.llama_lib_dir = refl
flag_of-text_flag Flag.llama_ngl = refl
flag_of-text_flag Flag.accel = refl
flag_of-text_flag Flag.max_num_tokens = refl
flag_of-text_flag Flag.visual_token_budget = refl
flag_of-text_flag Flag.prefix_cache_size = refl
flag_of-text_flag Flag.session_pool_size = refl
flag_of-text_flag Flag.prefix_cache_ttl_secs = refl
flag_of-text_flag Flag.session_ttl_secs = refl
flag_of-text_flag Flag.system_prompt = refl
flag_of-text_flag Flag.no_system_prompt = refl
flag_of-text_flag Flag.cache_dir = refl
flag_of-text_flag Flag.max_tokens = refl
flag_of-text_flag Flag.max_seq_len = refl
flag_of-text_flag Flag.help = refl
