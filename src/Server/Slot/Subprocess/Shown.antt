-- ===== src/Server/Slot/Subprocess/Shown.antt =====
-- model_api_server/src/subprocess_slot.rs: what a run shows.
use chitin_model_api.Prelude.Lists.{length}
use chitin_model_api.Prelude.Result.{Result, ok, err}
use chitin_model_api.Prelude.Text.{Bytes, codes, decimal}
use chitin_model_api.Prelude.{◌≡◌, List, [], ◌∷◌, ◌++◌, none, some}
use chitin_model_api.Proto.{InferenceResponse}
use chitin_model_api.Server.Slot.Stub.Chunks.{shown, StopsOnce}
use chitin_model_api.Server.Slot.Subprocess.{SubprocessSlot, Output, full_text}
use chitin_model_api.Server.Slot.{SlotEvent}

-- The text of a result.
abbrev pub map_text : Result Bytes InferenceResponse → Result Bytes Bytes
map_text (ok r) = ok r.text
map_text (err e) = err e

-- The events of a run: the chunks behind two progress events, with the number of layers, and before a
-- third one, with the number of bytes of the text.
abbrev pub reported : SubprocessSlot → Bytes → List SlotEvent → List SlotEvent
reported slot t chunks =
    SlotEvent.progress (record { phase = codes "queued"; tool = none; detail = none })
    ∷ SlotEvent.progress (record {
      phase = codes "gen_start";
      tool = none;
      detail = some (codes "ngl=" ++ slot.n_gpu_layers);
    })
    ∷ (chunks
        ++ (SlotEvent.progress (record {
          phase = codes "gen_done";
          tool = none;
          detail = some (decimal (length t) ++ codes " chars");
        })
            ∷ []))

module _ (decoded : Bytes → Bytes) where
  -- What it means that a run shows what the child printed.
  abbrev pub Shows : SubprocessSlot → List Bytes → Output → Type 0
  Shows slot reads out =
      (map_text out.result ≡ ok (full_text decoded reads))
      × (shown out.events ≡ full_text decoded reads)
      × ((chunks : List SlotEvent) × (out.events ≡ reported slot (full_text decoded reads) chunks)
          × StopsOnce chunks)
