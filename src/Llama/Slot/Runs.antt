-- ===== src/Llama/Slot/Runs.antt =====
-- model_api_server/src/llama_slot.rs: the fuel of a request.
use chitin_model_api.Llama.Session.Returns.{generate_raw_total}
use chitin_model_api.Llama.Session.{Llama, Session}
use chitin_model_api.Llama.Slot.{
  Vocabulary, Failure, Ran, want_client_dispatch, prompt_for, infer, conclude, run_inner, generated,
}
use chitin_model_api.Lenient.Object.{Panic}
use chitin_model_api.Prelude.Result.{Result, ok, err, Result-cases}
use chitin_model_api.Prelude.Tests.{Bool-cases}
use chitin_model_api.Prelude.Text.{Bytes}
use chitin_model_api.Prelude.{ℕ, ◌≤◌, ◌≡◌, refl, true, List, some, inl, inr}
use chitin_model_api.Proto.{InferenceRequest, ToolCall}
use chitin_model_api.Server.Tools.Calls.{extract_tool_calls-Numbered}
use chitin_model_api.Server.Tools.{ToolFormat, extract_tool_calls}
use chitin_model_api.Templates.{ChatFormat}

module _ (tool_format : ToolFormat) (chat_format : ChatFormat) (llama : Llama)
    (words : Vocabulary) where
  infer_total :
      (prompt : Bytes) (max_tokens : ℕ) (s : Session)
      → 1 ≤ s.batch_capacity
      → (out : Result Failure Bytes × Session) × (infer tool_format chat_format llama words prompt
            max_tokens s
          ≡ some out)
  unfolding infer
  infer_total prompt max_tokens s cap = elim (Result-cases (words.tokenize prompt)) [
    | inl (tokens, e) ↦
        let (d, ran) = generate_raw_total llama tokens max_tokens s cap in
        (generated tool_format chat_format llama words d, rw (e, infer, ran) refl)
    | inr (why, e) ↦ rw (e, infer) (_, refl)
  ]

  -- The search for calls ends, with calls or a panic.
  conclude_wanted :
      (req : InferenceRequest) (t : Bytes) (s : Session) (r : Result Panic (List ToolCall))
      → want_client_dispatch req.inference_config.tool_mode req.tools ≡ true
      → extract_tool_calls tool_format t ≡ some r
      → (x : Ran) × (conclude tool_format chat_format llama words req (ok t, s) ≡ some x)
  unfolding conclude
  conclude_wanted req t s (ok calls) w e = rw (w, conclude, e) (_, refl)
  conclude_wanted req t s (err p) w e = rw (w, conclude, e) (_, refl)

  conclude_total :
      (req : InferenceRequest) (out : Result Failure Bytes × Session)
      → (r : Ran) × (conclude tool_format chat_format llama words req out ≡ some r)
  unfolding conclude
  conclude_total req (err e, s) = (_, refl)
  conclude_total req (ok t, s) =
      let (calls, e, _) = extract_tool_calls-Numbered tool_format t in
      elim (Bool-cases (want_client_dispatch req.inference_config.tool_mode req.tools)) [
        | inl wanted ↦ conclude_wanted req t s calls wanted e
        | inr other ↦ rw (other, conclude) (_, refl)
      ]

  -- With a batch capacity of at least one, a request to the llama slot ends on every input: it returns, or panics
  -- where the parsing of a call does.
  pub run_inner_total :
      (req : InferenceRequest) (s : Session)
      → 1 ≤ s.batch_capacity
      → (r : Ran) × (run_inner tool_format chat_format llama words req s ≡ some r)
  unfolding run_inner
  run_inner_total req s cap = elim (Result-cases (prompt_for tool_format chat_format req)) [
    | inl (prompt, e) ↦
        let (out, ran) = infer_total prompt req.max_tokens s cap in
        let (r, done) = conclude_total req out in (r, rw (e, run_inner, ran) done)
    | inr (why, e) ↦ rw (e, run_inner) (_, refl)
  ]
