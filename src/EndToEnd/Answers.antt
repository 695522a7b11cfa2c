-- ===== src/EndToEnd/Answers.antt =====
-- `inference` of model_api_client/src/sync.rs against model_api_server/src/lib.rs.
use chitin_model_api.Client.Requests.Loops.{forget, await_response-await_stream}
use chitin_model_api.Client.Requests.{inference, await_stream}
use chitin_model_api.Client.Sync.{Codec, SyncClient}
use chitin_model_api.EndToEnd.{CanSend, result_of, send_can, at_reader, await_reply}
use chitin_model_api.Prelude.Lists.{length}
use chitin_model_api.Prelude.Result.{Result, ok}
use chitin_model_api.Prelude.Tests.{if◌then◌else◌, Bool-cases}
use chitin_model_api.Prelude.Text.{Bytes}
use chitin_model_api.Prelude.{
  suc, ◌≡◌, refl, sym, ap, ◌∙◌, inl, inr, ◌||◌, List, [], ◌∷◌, ◌++◌, some, map,
}
use chitin_model_api.Proto.{ClientMessage, InferenceRequest, InferenceResponse}
use chitin_model_api.Server.Handler.{final, reply}
use chitin_model_api.Server.Slot.{SlotEvent, SlotHandle}
use chitin_model_api.Server.Streaming
use chitin_model_api.Server.Streaming.Settle.{forwarded-Sublist}
use chitin_model_api.Server.Streaming.{Action, forwarded}
use chitin_model_api.Wire.Frames.{frames}

module _ {S : Type 0} (slot : SlotHandle S) (schedule : InferenceRequest → S → List Action)
    (c : Codec) where
  -- The slot's result for a request: that of a streaming run if one of the two flags is on.
  abbrev pub slot_result : InferenceRequest → S → Result Bytes InferenceResponse
  slot_result req s =
      if req.stream || req.progress then (slot.run_stream req s).result else (slot.run req s).0

  -- The frames of a reply are those of some events, and the final one.
  reply-final :
      (req : InferenceRequest) (s : S)
      → (fw : List SlotEvent) × ((reply slot schedule req s).0
          ≡ map Streaming.frame_of fw ++ (final (slot_result req s) ∷ []))
  unfolding reply
  reply-final req s = elim (Bool-cases (req.stream || req.progress)) [
    | inl e ↦
        let r = slot.run_stream req s in
        let (fw, shape, _, _) = forwarded-Sublist (final r.result) (schedule req s) r.events in
        (fw, rw (e, reply) shape)
    | inr e ↦ ([], rw (e, reply) refl)
  ]

  inference_can :
      (k : SyncClient) (req : InferenceRequest)
      → CanSend slot schedule c k (ClientMessage.inference req)
      → inference c k req
        ≡ forget (await_stream c (suc (length k.stream.reader.bytes)) [] k.stream.reader)
  inference_can k req can =
      let e = send_can slot schedule c k (ClientMessage.inference req) can in
      let d =
        await_response-await_stream c (suc (length k.stream.reader.bytes)) [] k.stream.reader in
      unfold inference in rw (e, inference) (sym d)

  -- On the bytes that the handler writes for a request, with anything behind them, `inference` returns
  -- the slot's result for it, whether the request streams or not, and leaves the stream at the bytes
  -- behind the answer.
  pub inference-reply :
      (k : SyncClient) (req : InferenceRequest) (s : S) (out rest : Bytes)
      → CanSend slot schedule c k (ClientMessage.inference req)
      → frames c.to_client (reply slot schedule req s).0 ≡ ok out
      → k.stream.reader.bytes ≡ out ++ rest
      → inference c k req
        ≡ some (record {
          result = result_of (slot_result req s);
          reader = record { bytes = rest; ending = k.stream.reader.ending };
        })
  inference-reply k req s out rest can h e =
      let (fw, shape) = reply-final req s in
      let h' = ap (frames c.to_client) (sym shape) ∙ h in
      inference_can k req can
      ∙ ap forget (
          at_reader slot schedule c k.stream.reader (out ++ rest) e
          ∙ await_reply slot schedule c fw (slot_result req s) out rest k.stream.reader.ending h')
