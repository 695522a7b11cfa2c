-- ===== src/Node/Answers.antt =====
-- A streaming request from JavaScript, answered by the server of model_api_server/src/lib.rs.
use chitin_model_api.Client.Requests.{inference_stream}
use chitin_model_api.Client.Sync.{SyncClient, Codec, server}
use chitin_model_api.EndToEnd.{CanSend, event_of, result_of, inference_stream-reply}
use chitin_model_api.Node.RoundTrip.{Handed, InRange, js_request, to_proto_request-js_request}
use chitin_model_api.Node.Types.{
  JsRequest, JsResponse, JsStreamEvent, JsToolCall, JsSessionReplacement,
}
use chitin_model_api.Node.{
  Napi, NodeError, client, map_option, from_proto_response, rust_event_to_napi, to_proto_request,
  resolved, settle_stream, node_inference_stream,
}
use chitin_model_api.Prelude.Lists.{length}
use chitin_model_api.Prelude.Result.{Result, ok, err}
use chitin_model_api.Prelude.Text.{Bytes, codes}
use chitin_model_api.Prelude.{
  ◌≤◌, ◌≡◌, refl, ap, ◌∙◌, true, false, List, [], ◌∷◌, ◌++◌, Option, none, some, map,
}
use chitin_model_api.Proto.{
  ClientMessage, InferenceInput, InferenceRequest, InferenceResponse, ToolCall, SessionReplacement,
}
use chitin_model_api.Server.Handler.{reply}
use chitin_model_api.Server.Slot.{SlotEvent, SlotHandle}
use chitin_model_api.Server.Streaming.{Action, channel_capacity}
use chitin_model_api.Wire.Frames.{frames}
use mathlib.Core.List.{Sublist}

-- The request as the server gets it: with the text and both flags on.
abbrev pub asked : Bytes → InferenceRequest → InferenceRequest
asked input p = record p { input = InferenceInput.text input; stream = true; progress = true }

-- An event of JavaScript that says what an event of the slot says.
abbrev pub IsEventOf : SlotEvent → JsStreamEvent → Type 0
IsEventOf (SlotEvent.chunk c) e =
    (e.kind ≡ codes "chunk")
    × (e.delta_text ≡ some c.delta_text)
    × (e.finish_reason ≡ c.finish_reason)
    × (e.phase ≡ c.phase)
    × (e.tool ≡ none)
    × (e.detail ≡ none)
IsEventOf (SlotEvent.progress p) e =
    (e.kind ≡ codes "progress")
    × (e.delta_text ≡ none)
    × (e.finish_reason ≡ none)
    × (e.phase ≡ some p.phase)
    × (e.tool ≡ p.tool)
    × (e.detail ≡ p.detail)

abbrev pub AreEventsOf : List SlotEvent → List JsStreamEvent → Type 0
AreEventsOf [] [] = Unit
AreEventsOf [] (e ∷ es) = ⊥
AreEventsOf (x ∷ xs) [] = ⊥
AreEventsOf (x ∷ xs) (e ∷ es) = IsEventOf x e × AreEventsOf xs es

abbrev pub AreCallsOf : List ToolCall → List JsToolCall → Type 0
AreCallsOf [] [] = Unit
AreCallsOf [] (d ∷ ds) = ⊥
AreCallsOf (c ∷ cs) [] = ⊥
AreCallsOf (c ∷ cs) (d ∷ ds) =
    ((d.id ≡ c.id) × (d.name ≡ c.name) × (d.arguments_json ≡ c.arguments_json)) × AreCallsOf cs ds

abbrev pub IsReplacementOf : Option SessionReplacement → Option JsSessionReplacement → Type 0
IsReplacementOf none none = Unit
IsReplacementOf none (some d) = ⊥
IsReplacementOf (some c) none = ⊥
IsReplacementOf (some c) (some d) =
    (d.template_session_id ≡ c.template_session_id) × (d.input ≡ c.input)

-- What the promise settles with, against the slot's result.
abbrev pub IsAnswerOf : Result Bytes InferenceResponse → Result NodeError JsResponse → Type 0
IsAnswerOf (ok r) (ok js) =
    (js.text ≡ r.text)
    × (js.session_id ≡ r.session_id)
    × (js.raw_text ≡ r.raw_text)
    × (js.injections ≡ r.injections)
    × AreCallsOf r.tool_calls js.tool_calls
    × IsReplacementOf r.replacement js.replacement
IsAnswerOf (ok r) (err e) = ⊥
IsAnswerOf (err why) (ok js) = ⊥
IsAnswerOf (err why) (err e) = e ≡ client (server why)

rust_event_to_napi-AreEventsOf :
    (fw : List SlotEvent) → AreEventsOf fw (map rust_event_to_napi (map event_of fw))
unfolding rust_event_to_napi
rust_event_to_napi-AreEventsOf [] = tt
rust_event_to_napi-AreEventsOf (SlotEvent.chunk c ∷ fw) =
    ((refl, refl, refl, refl, refl, refl), rust_event_to_napi-AreEventsOf fw)
rust_event_to_napi-AreEventsOf (SlotEvent.progress p ∷ fw) =
    ((refl, refl, refl, refl, refl, refl), rust_event_to_napi-AreEventsOf fw)

calls-AreCallsOf :
    (cs : List ToolCall)
    → AreCallsOf cs
        (map (λ c. record { id = c.id; name = c.name; arguments_json = c.arguments_json }) cs)
calls-AreCallsOf [] = tt
calls-AreCallsOf (c ∷ cs) = ((refl, refl, refl), calls-AreCallsOf cs)

replacement-IsReplacementOf :
    (o : Option SessionReplacement)
    → IsReplacementOf o (
        map_option (λ s. record { template_session_id = s.template_session_id; input = s.input }) o)
replacement-IsReplacementOf none = tt
replacement-IsReplacementOf (some s) = (refl, refl)

resolved-IsAnswerOf :
    (napi : Napi) (a : Result Bytes InferenceResponse) → IsAnswerOf a (resolved napi (result_of a))
unfolding from_proto_response
resolved-IsAnswerOf napi (ok r) = (
  refl,
  refl,
  refl,
  refl,
  calls-AreCallsOf r.tool_calls,
  replacement-IsReplacementOf r.replacement,
)
resolved-IsAnswerOf napi (err why) = refl

module _ {S : Type 0} (slot : SlotHandle S) (schedule : InferenceRequest → S → List Action)
    (napi : Napi) (handed : Handed napi) (c : Codec) where
  translated :
      (k : SyncClient) (r : JsRequest napi.BigInt) (p : InferenceRequest)
      → to_proto_request napi r ≡ ok p
      → node_inference_stream napi c k r
        ≡ settle_stream napi (inference_stream c k (record p { stream = true }))
  unfolding node_inference_stream
  translated k r p e = rw (e, node_inference_stream) refl

  -- A text request of the protocol is asked from JavaScript, with its hash a u64 and its numbers no
  -- NaNs. On the bytes that the handler writes for it, with both flags of streaming on, and with
  -- anything behind them, the promise settles with what the slot's result says, field by field, and
  -- `onEvent` gets what events say that the slot pushed, each at most once and in their order,
  -- progress events among them, and all of them if there are at most 64.
  pub node_inference_stream-reply :
      (k : SyncClient) (input : Bytes) (p : InferenceRequest) (s : S) (out rest : Bytes)
      → InRange p
      → CanSend slot schedule c k (ClientMessage.inference (asked input p))
      → frames c.to_client (reply slot schedule (asked input p) s).0 ≡ ok out
      → k.stream.reader.bytes ≡ out ++ rest
      → (fw : List SlotEvent) × (events : List JsStreamEvent) × (answer : Result NodeError
          JsResponse)
        × (node_inference_stream napi c k (js_request napi handed input p)
            ≡ some ((answer, record { bytes = rest; ending = k.stream.reader.ending }), events))
        × IsAnswerOf (slot.run_stream (asked input p) s).result answer
        × AreEventsOf fw events
        × Sublist fw (slot.run_stream (asked input p) s).events
        × (length (slot.run_stream (asked input p) s).events ≤ channel_capacity
            → fw ≡ (slot.run_stream (asked input p) s).events)
  unfolding settle_stream
  node_inference_stream-reply k input p s out rest range can h e =
      let q : InferenceRequest = record p {
        input = InferenceInput.text input;
        stream = false;
        progress = false;
      } in
      let t = to_proto_request-js_request napi handed input p range in
      let (fw, shape, sub, all) =
        inference_stream-reply slot schedule c k (record q { stream = true }) s out rest can h e in
      let result = (slot.run_stream (asked input p) s).result in
      (
        fw,
        map rust_event_to_napi (map event_of fw),
        resolved napi (result_of result),
        translated k (js_request napi handed input p) q t ∙ ap (settle_stream napi) shape,
        resolved-IsAnswerOf napi result,
        rust_event_to_napi-AreEventsOf fw,
        sub,
        all,
      )
