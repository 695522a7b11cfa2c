-- ===== src/Cli.antt =====
-- model_api_server/src/main.rs: the command line. What the standard library reads and prints of
-- numbers, paths and files is a parameter; a signed number is its bits.
pub mod Flags
pub mod Settings
pub mod Build
use chitin_model_api.Cli.Flags.{
  Flag, flag_of, text_flag, BackendKind, parse_backend, llama_cpp, lite_rt_lm, subprocess, stub,
}
use chitin_model_api.Cli.Flags
use chitin_model_api.Prelude.Result.{Result, ok, err, ◌>>=◌, map_err}
use chitin_model_api.Prelude.Lists.{length}
use chitin_model_api.Prelude.Tests.{if◌then◌else◌}
use chitin_model_api.Prelude.Text.{Bytes, codes, strip_prefix}
use chitin_model_api.Prelude.{
  ℕ, zero, suc, Bool, true, false, ◌&&◌, List, [], ◌∷◌, ◌++◌, Option, none, some,
}
use chitin_model_api.Server.Slot.Subprocess.{SubprocessSlot}
use Prim.Native.Nat.{compare, Ordering}

pub record Env : Type 0 where
  pub parse_i32 : Bytes → Result Bytes ℕ
  pub parse_u32 : Bytes → Result Bytes ℕ
  pub parse_usize : Bytes → Result Bytes ℕ
  pub parse_u64 : Bytes → Result Bytes ℕ
  pub show_i32 : ℕ → Bytes
  pub read_to_string : Bytes → Result Bytes Bytes
  pub parent : Bytes → Option Bytes
  pub file_stem : Bytes → Option Bytes

-- The variables of `parse_args`; all but the socket's path are the fields of `Args` as they are.
pub record Args : Type 0 where
  pub socket_path : Option Bytes
  pub backend : Option BackendKind
  pub model_path : Option Bytes
  pub model_name : Option Bytes
  pub max_tokens : ℕ
  pub max_seq_len : ℕ
  pub llama_bin : Option Bytes
  pub llama_lib_dir : Option Bytes
  pub llama_ngl : ℕ
  pub litertlm_accel : Bytes
  pub litertlm_max_num_tokens : ℕ
  pub litertlm_visual_token_budget : ℕ
  pub litertlm_prefix_cache_size : ℕ
  pub litertlm_prefix_cache_ttl_secs : ℕ
  pub litertlm_system_prompt : Option Bytes
  pub litertlm_cache_dir : Option Bytes

-- Why no arguments come back: the help text was asked for, or something is wrong.
pub data Stop : Type 0 where
  help_shown : Stop
  failure : Bytes → Stop

abbrev pub defaults : Bytes → Args
defaults system_prompt = record {
  socket_path = none;
  backend = none;
  model_path = none;
  model_name = none;
  max_tokens = 4096;
  max_seq_len = 16384;
  llama_bin = none;
  llama_lib_dir = none;
  llama_ngl = 0;
  litertlm_accel = codes "gpu";
  litertlm_max_num_tokens = 4096;
  litertlm_visual_token_budget = 512;
  litertlm_prefix_cache_size = 8;
  litertlm_prefix_cache_ttl_secs = 900;
  litertlm_system_prompt = some system_prompt;
  litertlm_cache_dir = none;
}

abbrev pub Step : Type 0
Step = Result Stop (Args × List Bytes)

-- `args.next().map(..)`: a missing value clears the option.
abbrev pub optional : (Option Bytes → Args) → List Bytes → Step
optional set [] = ok (set none, [])
optional set (v ∷ rest) = ok (set (some v), rest)

abbrev pub with_rest : List Bytes → Result Bytes Args → Step
with_rest rest (ok a) = ok (a, rest)
with_rest rest (err e) = err (failure e)

abbrev pub required : Flag → (Bytes → Result Bytes Args) → List Bytes → Step
required f set [] = err (failure (text_flag f ++ codes " needs a value"))
required f set (v ∷ rest) = with_rest rest (set v)

abbrev pub number : Flag → (Bytes → Result Bytes ℕ) → (ℕ → Args) → List Bytes → Step
number f parse set =
    required f (λ v. map_err (λ e. text_flag f ++ (codes ": " ++ e)) (parse v) >>= λ n. ok (set n))

-- `trim_end_matches('\n')`.
unfoldable pub trim_end : Bytes → Bytes
trim_end [] = []
trim_end (c ∷ s) =
    let rest = trim_end s in
    elim rest [
      | [] ↦ elim (compare c 10) [ Ordering.eq ↦ [] | _ ↦ c ∷ [] ]
      | d ∷ more ↦ c ∷ (d ∷ more)
    ]

module _ (env : Env) where
  unfoldable pub prompt_value : Bytes → Result Bytes Bytes
  unfolding strip_prefix trim_end
  prompt_value v = elim (strip_prefix (codes "@") v) [
    | none ↦ ok v
    | some path ↦
        map_err (λ e. codes "--litertlm-system-prompt @" ++ (path ++ (codes ": " ++ e)))
          (env.read_to_string path)
        >>= λ t. ok (trim_end t)
  ]

  -- One arm of the loop, on the arguments behind the flag.
  unfoldable pub take_flag : Flag → Args → List Bytes → Step
  unfolding prompt_value
  take_flag Flag.socket a = optional λ v. record a { socket_path = v }
  take_flag Flag.backend a =
      required Flag.backend (λ v. parse_backend v >>= λ k. ok (record a { backend = some k }))
  take_flag Flag.model a = optional λ v. record a { model_path = v }
  take_flag Flag.model_name a = optional λ v. record a { model_name = v }
  take_flag Flag.llama_bin a = optional λ v. record a { llama_bin = v }
  take_flag Flag.llama_lib_dir a = optional λ v. record a { llama_lib_dir = v }
  take_flag Flag.llama_ngl a = number Flag.llama_ngl env.parse_i32 λ n. record a { llama_ngl = n }
  take_flag Flag.accel a = required Flag.accel λ v. ok (record a { litertlm_accel = v })
  take_flag Flag.max_num_tokens a =
      number Flag.max_num_tokens env.parse_i32 λ n. record a { litertlm_max_num_tokens = n }
  take_flag Flag.visual_token_budget a =
      number Flag.visual_token_budget env.parse_i32
        λ n. record a { litertlm_visual_token_budget = n }
  take_flag Flag.prefix_cache_size a =
      number Flag.prefix_cache_size env.parse_usize λ n. record a { litertlm_prefix_cache_size = n }
  take_flag Flag.session_pool_size a =
      number Flag.session_pool_size env.parse_usize λ n. record a { litertlm_prefix_cache_size = n }
  take_flag Flag.prefix_cache_ttl_secs a =
      number Flag.prefix_cache_ttl_secs env.parse_u64
        λ n. record a { litertlm_prefix_cache_ttl_secs = n }
  take_flag Flag.session_ttl_secs a =
      number Flag.session_ttl_secs env.parse_u64
        λ n. record a { litertlm_prefix_cache_ttl_secs = n }
  take_flag Flag.system_prompt a =
      required Flag.system_prompt
        (λ v. prompt_value v >>= λ t. ok (record a { litertlm_system_prompt = some t }))
  take_flag Flag.no_system_prompt a = λ rest. ok (record a { litertlm_system_prompt = none }, rest)
  take_flag Flag.cache_dir a = optional λ v. record a { litertlm_cache_dir = v }
  take_flag Flag.max_tokens a =
      number Flag.max_tokens env.parse_usize λ n. record a { max_tokens = n }
  take_flag Flag.max_seq_len a =
      number Flag.max_seq_len env.parse_u32 λ n. record a { max_seq_len = n }
  take_flag Flag.help a = λ rest. err help_shown

  arm : Option Flag → Bytes → Args → List Bytes → Step
  arm none word a rest = err (failure (codes "unknown arg: " ++ word))
  arm (some f) word a rest = take_flag f a rest

  go_on : (Args → List Bytes → Option (Result Stop Args)) → Step → Option (Result Stop Args)
  go_on again (err s) = some (err s)
  go_on again (ok (a, rest)) = again a rest

  -- The loop; each round takes at least one argument, so as much fuel as there are arguments is
  -- enough, and `none` means that it ran out.
  unfoldable pub parse_loop : ℕ → Args → List Bytes → Option (Result Stop Args)
  unfolding flag_of take_flag arm go_on
  parse_loop fuel a [] = some (ok a)
  parse_loop zero a (word ∷ rest) = none
  parse_loop (suc fuel) a (word ∷ rest) = go_on (parse_loop fuel) (arm (flag_of word) word a rest)

  with_socket : Args → Result Stop Args
  with_socket a = elim a.socket_path [
    | none ↦ err (failure (codes "--socket is required"))
    | some _ ↦ ok a
  ]

  unfoldable pub parse_args : Bytes → List Bytes → Option (Result Stop Args)
  unfolding parse_loop with_socket
  parse_args system_prompt words = elim (parse_loop (length words) (defaults system_prompt) words) [
    | none ↦ none
    | some r ↦ some (r >>= with_socket)
  ]

  unfoldable pub build_subprocess_slot : Args → Result Bytes SubprocessSlot
  build_subprocess_slot a = elim a.llama_bin [
    | none ↦ err (codes "--backend subprocess requires --llama-bin")
    | some bin ↦ elim a.model_path [
      | none ↦ err (codes "--backend subprocess requires --model")
      | some model ↦ ok (record {
        llama_bin = bin;
        model = model;
        lib_dir = elim a.llama_lib_dir [
          | some d ↦ d
          | none ↦ elim (env.parent bin) [ some d ↦ d | none ↦ codes "." ]
        ];
        n_gpu_layers = env.show_i32 a.llama_ngl;
        model_name = elim (env.file_stem model) [ some n ↦ n | none ↦ codes "subprocess" ];
      })
    ]
  ]

is_some : {A : Type 0} → Option A → Bool
is_some none = false
is_some (some _) = true

-- The two flags say which backends are compiled in.
unfoldable pub default_backend : Bool → Bool → Args → BackendKind
unfolding is_some
default_backend with_litert_lm with_llama_cpp a =
    if with_litert_lm && is_some a.model_path
    then lite_rt_lm
    else (if with_llama_cpp && is_some a.model_path
        then llama_cpp
        else (if is_some a.llama_bin && is_some a.model_path then subprocess else stub))
