-- ===== src/Server/Slot/Subprocess.antt =====
-- model_api_server/src/subprocess_slot.rs: a slot that runs llama-completion once per request. The
-- child process is a parameter: for its arguments and library path, an error of the start or what it
-- prints, read by read; the decoding of a read's bytes into text is one too. A read error ends the
-- output as its end does.
pub mod Shown
use chitin_model_api.Prelude.Lists.{length}
use chitin_model_api.Prelude.Result.{Result, ok, err, ◌>>=◌}
use chitin_model_api.Prelude.Tests.{leb, if◌then◌else◌}
use chitin_model_api.Prelude.Text.{Bytes, codes, decimal, is_empty}
use chitin_model_api.Prelude.{ℕ, max, Bool, true, false, List, [], ◌∷◌, ◌++◌, Option, none, some}
use chitin_model_api.Proto.{
  InferenceInput, text, turns, pcm, mel, InferenceRequest, InferenceResponse, StreamChunk,
  ProgressEvent,
}
use chitin_model_api.Server.Slot.{SlotEvent}

-- `n_gpu_layers` is kept as the text that the child gets.
pub record SubprocessSlot : Type 0 where
  pub llama_bin : Bytes
  pub model : Bytes
  pub lib_dir : Bytes
  pub n_gpu_layers : Bytes
  pub model_name : Bytes

pub record Command : Type 0 where
  pub program : Bytes
  pub library_path : Bytes
  pub arguments : List Bytes

pub record Output : Type 0 where
  pub events : List SlotEvent
  pub result : Result Bytes InferenceResponse

progress_event : Bytes → Option Bytes → SlotEvent
progress_event phase detail =
    SlotEvent.progress (record { phase = phase; tool = none; detail = detail })

unfoldable pub text_event : Bytes → Option Bytes → SlotEvent
text_event delta finish =
    SlotEvent.chunk
      (record { delta_text = delta; finish_reason = finish; phase = some (codes "text") })

unfoldable pub command_of : SubprocessSlot → Bytes → ℕ → Command
command_of slot prompt max_tokens = record {
  program = slot.llama_bin;
  library_path = slot.lib_dir;
  arguments =
      codes "-m"
      ∷ slot.model
      ∷ codes "-p"
      ∷ prompt
      ∷ codes "-n"
      ∷ decimal max_tokens
      ∷ codes "-ngl"
      ∷ slot.n_gpu_layers
      ∷ codes "--no-warmup"
      ∷ codes "-no-cnv"
      ∷ codes "--no-display-prompt"
      ∷ codes "--temp"
      ∷ codes "0.0"
      ∷ codes "--seed"
      ∷ codes "42"
      ∷ [];
}

unfoldable pub prompt_text : InferenceInput → Result Bytes Bytes
prompt_text (text t) = ok t
prompt_text (turns _) = err (codes "subprocess slot: non-text input not supported")
prompt_text (pcm _ _) = err (codes "subprocess slot: non-text input not supported")
prompt_text (mel _ _) = err (codes "subprocess slot: non-text input not supported")

module _ (decoded : Bytes → Bytes) where
  -- What the read loop pushes with `acc` not yet shown, and then the rest and the stop mark.
  unfoldable pub output_chunks : Bytes → List Bytes → List SlotEvent
  unfolding text_event
  output_chunks acc [] =
      (if is_empty acc then [] else (text_event acc none ∷ []))
      ++ (text_event [] (some (codes "stop")) ∷ [])
  output_chunks acc (read ∷ reads) =
      let acc' = acc ++ decoded read in
      elim (leb 16 (length acc')) [
        | true ↦ text_event acc' none ∷ output_chunks [] reads
        | false ↦ output_chunks acc' reads
      ]

  unfoldable pub full_text : List Bytes → Bytes
  full_text [] = []
  full_text (read ∷ reads) = decoded read ++ full_text reads

  respond : Bytes → InferenceResponse
  respond t = record {
    text = t;
    session_id = none;
    raw_text = none;
    injections = [];
    tool_calls = [];
    replacement = none;
  }

  unfoldable pub with_output : SubprocessSlot → Result Bytes (List Bytes) → Output
  unfolding output_chunks full_text progress_event respond
  with_output slot spawned =
      let queued = progress_event (codes "queued") none in
      let started = progress_event (codes "gen_start") (some (codes "ngl=" ++ slot.n_gpu_layers)) in
      elim spawned [
        | err e ↦ record { events = queued ∷ started ∷ []; result = err (codes "spawn: " ++ e) }
        | ok reads ↦
            let t = full_text reads in
            record {
              events =
                  queued
                  ∷ started
                  ∷ (output_chunks [] reads
                      ++ (progress_event (codes "gen_done")
                            (some (decimal (length t) ++ codes " chars"))
                          ∷ []));
              result = ok (respond t);
            }
      ]

  module _ (spawn : Command → Result Bytes (List Bytes)) where
    unfoldable pub run_process : SubprocessSlot → InferenceRequest → Output
    unfolding prompt_text with_output command_of
    run_process slot req = elim (prompt_text req.input) [
      | err e ↦ record { events = []; result = err e }
      | ok prompt ↦ with_output slot (spawn (command_of slot prompt (max req.max_tokens 1)))
    ]
