-- ===== src/Tests/Builds.antt =====
-- The slot that is built without a named backend, and the model file of a directory.
use chitin_model_api.Cli.Build.Defaults.{slot_for-Builds}
use chitin_model_api.Cli.Build.{Built, slot_for}
use chitin_model_api.Cli.{Args, defaults}
use chitin_model_api.Llama.Slot.Path.{
  FileSystem, IsOrder, Among, ggufs_of, resolve_gguf_path, resolve_gguf_path-Least,
}
use chitin_model_api.Prelude.Lists.{All, length}
use chitin_model_api.Prelude.Result.{ok}
use chitin_model_api.Prelude.Tests.{leb}
use chitin_model_api.Prelude.Text.{Bytes, codes, bytes_eq}
use chitin_model_api.Prelude.{◌≡◌, refl, inl, Bool, true, false, [], ◌∷◌, Option, none, some, arith}
use chitin_model_api.Tests.Commands.{env}

abbrev named : Args
named = record (defaults []) { model_path = some (codes "m.gguf") }

-- Paths by their length, in a directory `d` of three.
abbrev if_g : Bool → Option Bytes
if_g true = some (codes "GGUF")
if_g false = none

abbrev first_byte_g : Bytes → Option Bytes
first_byte_g [] = none
first_byte_g (b ∷ s) = if_g (bytes_eq (b ∷ []) (codes "g"))

abbrev files : FileSystem
files = record {
  extension = λ p. first_byte_g p;
  is_dir = λ p. true;
  read_dir = λ p. some (codes "gxx" ∷ codes "t" ∷ codes "gx" ∷ []);
  path_le = λ p q. leb (length p) (length q);
  to_string_lossy = λ p. p;
}

by_length : IsOrder files.path_le
by_length = record { total = λ p q. ground arith; transitive = λ p q r h k. ground (arith, h, k) }

resolve_gguf_path-Least_example :
    (first : Bytes) × (resolve_gguf_path files (codes "d") ≡ first)
    × Among first (codes "gxx" ∷ codes "gx" ∷ [])
    × All (λ q. files.path_le first q ≡ true) (codes "gxx" ∷ codes "gx" ∷ [])
unfolding ggufs_of bytes_eq
resolve_gguf_path-Least_example =
    resolve_gguf_path-Least files by_length (codes "d") (codes "gxx")
      (codes "gxx" ∷ codes "t" ∷ codes "gx" ∷ []) (codes "gx" ∷ []) refl refl refl refl

slot_for-Builds_example : (b : Built) × (slot_for env files true false named ≡ ok b)
slot_for-Builds_example = slot_for-Builds env files named true false refl (inl refl)
