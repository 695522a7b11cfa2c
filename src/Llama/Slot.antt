-- ===== src/Llama/Slot.antt =====
-- model_api_server/src/llama_slot.rs: a request on the llama.cpp session. The tokenizer is a
-- parameter, and an error of the session is a constructor; the mutex is held for the whole of the
-- inference, so a run is a function of the session.
pub mod Runs
pub mod Path
use chitin_model_api.Llama.Session.{Llama, Session, SessionError, Done, generate_raw}
use chitin_model_api.Lenient.Object.{Panic}
use chitin_model_api.Prelude.Lists.{length}
use chitin_model_api.Prelude.Result.{Result, ok, err}
use chitin_model_api.Prelude.Tests.{if◌then◌else◌}
use chitin_model_api.Prelude.Text.{Bytes, codes, is_empty}
use chitin_model_api.Prelude.{ℕ, Bool, true, false, not, List, [], ◌∷◌, ◌++◌, Option, none, some}
use chitin_model_api.Proto.{
  InferenceInput, text, turns, pcm, mel, InferenceRequest, InferenceResponse, ToolMode, auto,
  server, client, ToolCall, ToolDef, SessionMode, stateless, persistent, StreamChunk, ProgressEvent,
}
use chitin_model_api.Server.Slot.{SlotEvent}
use chitin_model_api.Server.Tools.{
  ToolFormat, Searched, tool_results_to_turns, prepend_tool_results_to_text, extract_tool_calls,
}
use chitin_model_api.Templates.{ChatFormat, render_turns}

pub record Vocabulary : Type 0 where
  pub tokenize : Bytes → Result Bytes (List ℕ)
  pub detokenize : List ℕ → Bytes

-- `panicked` is no error that comes back, but a panic of the task.
pub data Failure : Type 0 where
  audio_not_supported : Failure
  not_tokenized : Bytes → Failure
  session_failed : SessionError → Failure
  panicked : Panic → Failure

pub record Ran : Type 0 where
  pub events : List SlotEvent
  pub result : Result Failure InferenceResponse
  pub session : Session

unfoldable pub want_client_dispatch : ToolMode → List ToolDef → Bool
want_client_dispatch client tools = true
want_client_dispatch server tools = false
want_client_dispatch auto tools = not (is_empty tools)

unfoldable pub echoed_session : SessionMode → Option Bytes
echoed_session stateless = none
echoed_session (persistent id) = some id

module _ (tool_format : ToolFormat) (chat_format : ChatFormat) where
  unfoldable pub prompt_for : InferenceRequest → Result Failure Bytes
  unfolding render_turns tool_results_to_turns prepend_tool_results_to_text
  prompt_for req = elim req.input [
    | turns ts ↦ ok (
        render_turns chat_format (ts ++ tool_results_to_turns tool_format req.tool_results)
          req.inference_config.system_prompt)
    | text s ↦ ok (prepend_tool_results_to_text tool_format s req.tool_results)
    | pcm _ _ ↦ err audio_not_supported
    | mel _ _ ↦ err audio_not_supported
  ]

  module _ (llama : Llama) (words : Vocabulary) where
    generated : Done (List ℕ) → Result Failure Bytes × Session
    generated (err e, s) = (err (session_failed e), s)
    generated (ok ts, s) = (ok (words.detokenize ts), s)

    -- What runs on the blocking pool.
    unfoldable pub infer : Bytes → ℕ → Session → Option (Result Failure Bytes × Session)
    unfolding generate_raw generated
    infer prompt max_tokens s = elim (words.tokenize prompt) [
      | err e ↦ some (err (not_tokenized e), s)
      | ok tokens ↦ elim (generate_raw llama tokens max_tokens s) [
        | none ↦ none
        | some d ↦ some (generated d)
      ]
    ]

    progress_event : Bytes → SlotEvent
    progress_event phase = SlotEvent.progress (record { phase = phase; tool = none; detail = none })

    begun : List SlotEvent
    begun = progress_event (codes "queued") ∷ progress_event (codes "gen_start") ∷ []

    ended : Bytes → List SlotEvent
    ended t =
        SlotEvent.chunk (record { delta_text = t; finish_reason = none; phase = none })
        ∷ progress_event (codes "gen_done")
        ∷ []

    -- `none` is the fuel of the session or of the search for calls.
    calls_for : InferenceRequest → Bytes → Searched tool_format
    calls_for req t =
        if want_client_dispatch req.inference_config.tool_mode req.tools
        then extract_tool_calls tool_format t
        else some (ok [])

    respond : InferenceRequest → Bytes → List ToolCall → InferenceResponse
    respond req t calls = record {
      text = t;
      session_id = echoed_session req.session;
      raw_text = none;
      injections = [];
      tool_calls = calls;
      replacement = none;
    }

    unfoldable pub conclude : InferenceRequest → Result Failure Bytes × Session → Option Ran
    unfolding begun ended calls_for respond progress_event
    conclude req (err e, s) = some (record { events = begun; result = err e; session = s })
    conclude req (ok t, s) = elim (calls_for req t) [
      | none ↦ none
      | some (err p) ↦
          some (record { events = begun ++ ended t; result = err (panicked p); session = s })
      | some (ok calls) ↦
          some
            (record { events = begun ++ ended t; result = ok (respond req t calls); session = s })
    ]

    -- `run_inner` with a sink; without one the events are dropped.
    unfoldable pub run_inner : InferenceRequest → Session → Option Ran
    unfolding prompt_for infer conclude
    run_inner req s = elim (prompt_for req) [
      | err e ↦ some (record { events = []; result = err e; session = s })
      | ok prompt ↦ elim (infer prompt req.max_tokens s) [
        | none ↦ none
        | some out ↦ conclude req out
      ]
    ]
