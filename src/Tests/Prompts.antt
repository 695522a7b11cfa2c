-- ===== src/Tests/Prompts.antt =====
-- The output of a child process at concrete inputs.
use chitin_model_api.Prelude.Text.{Bytes, codes}
use chitin_model_api.Prelude.{List, [], ◌∷◌}
use chitin_model_api.Server.Slot.Subprocess.{SubprocessSlot}

abbrev slot : SubprocessSlot
slot = record {
  llama_bin = codes "bin";
  model = codes "m.gguf";
  lib_dir = codes ".";
  n_gpu_layers = codes "0";
  model_name = codes "m";
}

abbrev reads : List Bytes
reads = codes "a long first piece" ∷ codes "short" ∷ []
