-- ===== src/Server/Slot.antt =====
-- model_api_server/src/slot.rs: what the connection handler asks of a slot, and the stub slot.
-- A slot keeps a state of its own. A streaming run is the list of events that it pushes into the
-- sink, in order, and its result; the default `run_stream` pushes none.
pub mod Stub
pub mod Subprocess
use chitin_model_api.Prelude.Result.{Result}
use chitin_model_api.Prelude.Text.{Bytes}
use chitin_model_api.Prelude.{ℕ, Bool, false, List, [], Option}
use chitin_model_api.Proto.{InferenceRequest, InferenceResponse, StreamChunk, ProgressEvent}

-- `SlotEvent` of model_api_server/src/lib.rs: what the sink's two methods take.
pub data SlotEvent : Type 0 where
  chunk : StreamChunk → SlotEvent
  progress : ProgressEvent → SlotEvent

pub record Run (S : Type 0) : Type 0 where
  pub events : List SlotEvent
  pub result : Result Bytes InferenceResponse
  pub state : S

pub record SlotHandle (S : Type 0) : Type 0 where
  pub model_name : Bytes
  pub gpu_memory_mb : Option ℕ
  pub run : InferenceRequest → S → Result Bytes InferenceResponse × S
  pub run_stream : InferenceRequest → S → Run S
  pub cancel_in_flight : S → Bool

-- The trait's default methods, over a slot's own `run`.
unfoldable pub default_run_stream :
    {S : Type 0}
    → (InferenceRequest → S → Result Bytes InferenceResponse × S)
    → InferenceRequest
    → S
    → Run S
default_run_stream run req s =
    let (a, s') = run req s in record { events = []; result = a; state = s' }

abbrev pub default_cancel_in_flight : {S : Type 0} → S → Bool
default_cancel_in_flight s = false
