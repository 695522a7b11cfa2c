-- ===== src/Tests/Commands.antt =====
-- Command lines at concrete words.
use chitin_model_api.Cli.Flags.{stub}
use chitin_model_api.Cli.Settings.{Sets, done, flag, parse_args-Sets}
use chitin_model_api.Cli.Settings.Effects.{socket_is, backend_is}
use chitin_model_api.Cli.{Env, Args, defaults, parse_args}
use chitin_model_api.Prelude.Result.{ok}
use chitin_model_api.Prelude.Text.{Bytes, codes}
use chitin_model_api.Prelude.{◌≡◌, refl, List, [], ◌∷◌, none, some}

abbrev pub env : Env
env = record {
  parse_i32 = λ b. ok 1;
  parse_u32 = λ b. ok 1;
  parse_usize = λ b. ok 1;
  parse_u64 = λ b. ok 1;
  show_i32 = λ n. codes "1";
  read_to_string = λ p. ok [];
  parent = λ p. none;
  file_stem = λ p. none;
}

abbrev words : List Bytes
words = codes "--socket" ∷ codes "s" ∷ codes "--backend" ∷ codes "stub" ∷ []

abbrev start : Args
start = defaults []

abbrev bound : Args
bound = record start { socket_path = some (codes "s") }

abbrev chosen : Args
chosen = record bound { backend = some stub }

both-Sets : Sets env start words chosen
both-Sets =
    flag {a' = bound} {words = codes "--backend" ∷ codes "stub" ∷ []} (socket_is start (codes "s"))
      (flag {a' = chosen} {words = []} (backend_is bound stub) done)

parse_args-Sets_example : parse_args env [] words ≡ some (ok chosen)
parse_args-Sets_example =
    parse_args-Sets env {a = chosen} {words = words} [] (codes "s") both-Sets refl
