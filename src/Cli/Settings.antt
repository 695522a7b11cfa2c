-- ===== src/Cli/Settings.antt =====
-- model_api_server/src/main.rs: runs of the loop over the command line.
pub mod Effects
use chitin_model_api.Cli.Settings.Effects.{Setting, Taken, Setting-Taken}
use chitin_model_api.Cli.Flags.{Flag, flag_of, text_flag, flag_of-text_flag}
use chitin_model_api.Cli.{
  Env, Args, Stop, Step, defaults, optional, with_rest, required, take_flag, arm, go_on, parse_loop,
  with_socket, parse_args,
}
use chitin_model_api.Prelude.Lists.{length, length-append}
use chitin_model_api.Prelude.Result.{Result, ok, err, ◌>>=◌}
use chitin_model_api.Prelude.Text.{Bytes}
use chitin_model_api.Prelude.{
  ℕ, zero, suc, ◌≤◌, ◌≡◌, refl, ap, List, [], ◌∷◌, ◌++◌, Option, none, some, arith,
}

-- What is left is no longer than what was there.
abbrev Shorter : Step → List Bytes → Type 0
Shorter (ok (a, rest')) rest = length rest' ≤ length rest
Shorter (err s) rest = Unit

optional-Shorter :
    (set : Option Bytes → Args) (rest : List Bytes) → Shorter (optional set rest) rest
optional-Shorter set [] = omega arith
optional-Shorter set (v ∷ rest) = omega arith

with_rest-Shorter :
    (v : Bytes) (rest : List Bytes) (r : Result Bytes Args) → Shorter (with_rest rest r) (v ∷ rest)
with_rest-Shorter v rest (ok a) = omega arith
with_rest-Shorter v rest (err e) = tt

required-Shorter :
    (f : Flag) (set : Bytes → Result Bytes Args) (rest : List Bytes)
    → Shorter (required f set rest) rest
required-Shorter f set [] = tt
required-Shorter f set (v ∷ rest) = with_rest-Shorter v rest (set v)

module _ (env : Env) where
  take_flag-Shorter :
      (f : Flag) (a : Args) (rest : List Bytes) → Shorter (take_flag env f a rest) rest
  unfolding take_flag
  take_flag-Shorter Flag.socket a rest = optional-Shorter (λ v. record a { socket_path = v }) rest
  take_flag-Shorter Flag.backend a rest = required-Shorter Flag.backend _ rest
  take_flag-Shorter Flag.model a rest = optional-Shorter (λ v. record a { model_path = v }) rest
  take_flag-Shorter Flag.model_name a rest =
      optional-Shorter (λ v. record a { model_name = v }) rest
  take_flag-Shorter Flag.llama_bin a rest = optional-Shorter (λ v. record a { llama_bin = v }) rest
  take_flag-Shorter Flag.llama_lib_dir a rest =
      optional-Shorter (λ v. record a { llama_lib_dir = v }) rest
  take_flag-Shorter Flag.llama_ngl a rest = required-Shorter Flag.llama_ngl _ rest
  take_flag-Shorter Flag.accel a rest =
      required-Shorter Flag.accel (λ v. ok (record a { litertlm_accel = v })) rest
  take_flag-Shorter Flag.max_num_tokens a rest = required-Shorter Flag.max_num_tokens _ rest
  take_flag-Shorter Flag.visual_token_budget a rest =
      required-Shorter Flag.visual_token_budget _ rest
  take_flag-Shorter Flag.prefix_cache_size a rest = required-Shorter Flag.prefix_cache_size _ rest
  take_flag-Shorter Flag.session_pool_size a rest = required-Shorter Flag.session_pool_size _ rest
  take_flag-Shorter Flag.prefix_cache_ttl_secs a rest =
      required-Shorter Flag.prefix_cache_ttl_secs _ rest
  take_flag-Shorter Flag.session_ttl_secs a rest = required-Shorter Flag.session_ttl_secs _ rest
  take_flag-Shorter Flag.system_prompt a rest = required-Shorter Flag.system_prompt _ rest
  take_flag-Shorter Flag.no_system_prompt a rest = omega arith
  take_flag-Shorter Flag.cache_dir a rest =
      optional-Shorter (λ v. record a { litertlm_cache_dir = v }) rest
  take_flag-Shorter Flag.max_tokens a rest = required-Shorter Flag.max_tokens _ rest
  take_flag-Shorter Flag.max_seq_len a rest = required-Shorter Flag.max_seq_len _ rest
  take_flag-Shorter Flag.help a rest = tt

  arm-Shorter :
      (o : Option Flag) (word : Bytes) (a : Args) (rest : List Bytes)
      → Shorter (arm env o word a rest) rest
  unfolding arm
  arm-Shorter none word a rest = tt
  arm-Shorter (some f) word a rest = take_flag-Shorter f a rest

  abbrev Returns : Option (Result Stop Args) → Type 0
  Returns o = (r : Result Stop Args) × (o ≡ some r)

  go_on-Returns :
      (again : Args → List Bytes → Option (Result Stop Args)) (s : Step) (rest : List Bytes)
      → Shorter s rest
      → ((a : Args) (rest' : List Bytes) → length rest' ≤ length rest → Returns (again a rest'))
      → Returns (go_on env again s)
  unfolding go_on
  go_on-Returns again (err s) rest h next = (err s, refl)
  go_on-Returns again (ok (a, rest')) rest h next = next a rest' h

  parse_loop_total :
      (fuel : ℕ) (a : Args) (words : List Bytes)
      → length words ≤ fuel
      → Returns (parse_loop env fuel a words)
  unfolding parse_loop
  parse_loop_total fuel a [] h = (ok a, refl)
  parse_loop_total zero a (word ∷ rest) h = absurd (omega arith)
  parse_loop_total (suc fuel) a (word ∷ rest) h =
      go_on-Returns (parse_loop env fuel) (arm env (flag_of word) word a rest) rest
        (arm-Shorter (flag_of word) word a rest)
        (λ a' rest' k. parse_loop_total fuel a' rest' (omega arith))

  -- `parse_args` returns on every command line.
  pub parse_args_total :
      (system_prompt : Bytes) (words : List Bytes)
      → (r : Result Stop Args) × (parse_args env system_prompt words ≡ some r)
  unfolding parse_args
  parse_args_total system_prompt words =
      let (r, e) = parse_loop_total (length words) (defaults system_prompt) words (omega arith) in
      (r >>= with_socket env, rw (e, parse_args) refl)

  -- A command line of flags with their values, and the arguments before and after.
  pub data Sets : Args → List Bytes → Args → Type 0 where
    done : {a : Args} → Sets a [] a
    flag :
        {a a' a'' : Args} {front words : List Bytes}
        → Setting env a front a'
        → Sets a' words a''
        → Sets a (front ++ words) a''

  -- One round of the loop.
  round :
      {a' a'' : Args} {front : List Bytes} (a : Args) (words : List Bytes) (fuel : ℕ)
      → Taken env a front a'
      → length (front ++ words) ≤ suc fuel
      → (length words ≤ fuel → parse_loop env fuel a' words ≡ some (ok a''))
      → parse_loop env (suc fuel) a (front ++ words) ≡ some (ok a'')
  unfolding parse_loop arm go_on
  round a words fuel (f, value, e, takes) h again =
      let l = ap (λ w. length (w ++ words)) e in
      let next = again (omega (arith, h, l, length-append value words)) in
      rw (e, flag_of-text_flag f, parse_loop, takes words) next

  parse_loop-Sets :
      {a a' : Args} {words : List Bytes} (fuel : ℕ)
      → Sets a words a'
      → length words ≤ fuel
      → parse_loop env fuel a words ≡ some (ok a')
  unfolding parse_loop
  parse_loop-Sets fuel done h = refl
  parse_loop-Sets zero (flag {front = front} {words = words} s rest) h =
      let (f, value, e, takes) = Setting-Taken env s in
      let l = ap (λ w. length (w ++ words)) e in absurd (omega (arith, h, l))
  parse_loop-Sets (suc fuel) (flag {a = a} {words = words} s rest) h =
      round a words fuel (Setting-Taken env s) h (parse_loop-Sets fuel rest)

  -- A command line made of flags with their values, the socket's among them, does to the defaults what
  -- the table of the flags says, one after the other.
  pub parse_args-Sets :
      {a : Args} {words : List Bytes} (system_prompt socket : Bytes)
      → Sets (defaults system_prompt) words a
      → a.socket_path ≡ some socket
      → parse_args env system_prompt words ≡ some (ok a)
  unfolding parse_args with_socket
  parse_args-Sets {words = words} system_prompt socket sets given =
      let e = parse_loop-Sets (length words) sets (omega arith) in rw (e, parse_args, given) refl
