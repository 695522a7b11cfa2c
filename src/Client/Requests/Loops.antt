-- ===== src/Client/Requests/Loops.antt =====
-- model_api_client/src/sync.rs: the ends of the loops, and how the two compare.
use chitin_model_api.Client.Requests.{
  Outcome, Frame, Streamed, answer, answer_stream, await_response, await_stream, inference, enough,
  send,
}
use chitin_model_api.Client.Sync.{StreamEvent, SyncClient, Codec, read_frame}
use chitin_model_api.Prelude.Lists.{length}
use chitin_model_api.Prelude.Result.{ok, err, Result-cases}
use chitin_model_api.Prelude.{
  ℕ, zero, suc, ◌+◌, ◌≤◌, ◌<◌, ◌≡◌, refl, List, Option, none, some, inl, inr, arith,
}
use chitin_model_api.Proto.{ClientMessage, InferenceRequest, ServerMessage, InferenceResponse}
use chitin_model_api.Wire.{Reader, read_frame_async}
use chitin_model_api.Wire.Sequence.{read_frame_async_shrinks}

-- The outcome without the callback's calls.
abbrev pub forget : Option Streamed → Option (Outcome InferenceResponse)
forget none = none
forget (some (o, seen)) = some o

module _ (c : Codec) where
  -- Where the asynchronous reader succeeds the synchronous one gives the same.
  pub read_frame-async :
      (r : Reader) (p : Option ServerMessage × Reader)
      → read_frame_async c.to_client r ≡ ok p
      → read_frame c r ≡ ok p
  unfolding read_frame read_frame_async
  read_frame-async r p h = ground arith

  async-read_frame :
      (r r' : Reader) (m : ServerMessage)
      → read_frame c r ≡ ok (some m, r')
      → read_frame_async c.to_client r ≡ ok (some m, r')
  unfolding read_frame read_frame_async
  async-read_frame r r' m h = ground arith

  shrinks :
      (r r' : Reader) (m : ServerMessage)
      → read_frame c r ≡ ok (some m, r')
      → length r'.bytes + 4 ≤ length r.bytes
  shrinks r r' m h = (read_frame_async_shrinks c.to_client r r' m (async-read_frame r r' m h)).0

  abbrev Ends : {A : Type 0} → Option A → Type 0
  Ends {A} o = (a : A) × (o ≡ some a)

  answer-Ends :
      (again : Reader → Option (Outcome InferenceResponse)) (r : Reader) (p : Frame)
      → read_frame c r ≡ p
      → ((r' : Reader) → length r'.bytes < length r.bytes → Ends (again r'))
      → Ends (answer again r p)
  unfolding answer
  answer-Ends again r (err e) h k = (_, refl)
  answer-Ends again r (ok (none, r')) h k = (_, refl)
  answer-Ends again r (ok (some (ServerMessage.inference_complete _), r')) h k = (_, refl)
  answer-Ends again r (ok (some (ServerMessage.inference_error _), r')) h k = (_, refl)
  answer-Ends again r (ok (some (ServerMessage.progress _), r')) h k =
      k r' (omega (arith, shrinks r r' _ h))
  answer-Ends again r (ok (some (ServerMessage.chunk _), r')) h k =
      k r' (omega (arith, shrinks r r' _ h))
  answer-Ends again r (ok (some (ServerMessage.hello _ _ _), r')) h k =
      k r' (omega (arith, shrinks r r' _ h))
  answer-Ends again r (ok (some ServerMessage.goodbye, r')) h k =
      k r' (omega (arith, shrinks r r' _ h))

  -- The loop of `inference` has enough fuel on every stream.
  await_response_total :
      (fuel : ℕ) (r : Reader) → length r.bytes < fuel → Ends (await_response c fuel r)
  unfolding await_response
  await_response_total zero r h = elim h [ ]
  await_response_total (suc fuel) r h =
      answer-Ends (await_response c fuel) r (read_frame c r) refl
        (λ r' l. await_response_total fuel r' (omega arith))

  -- The fuel of `inference` is enough: on the bytes that have come it returns, at a terminal frame, at
  -- an error or at their end.
  pub inference_total :
      (k : SyncClient) (req : InferenceRequest)
      → (o : Outcome InferenceResponse) × (inference c k req ≡ some o)
  unfolding inference
  inference_total k req = elim (Result-cases (send c k (ClientMessage.inference req))) [
    | inl (s, e) ↦
        rw (e, inference)
          (await_response_total (enough c s) s.reader (unfold enough in omega arith))
    | inr (x, e) ↦ (record { result = err x; reader = k.stream.reader }, rw (e, inference))
  ]

  answer-answer_stream :
      (again : List StreamEvent → Reader → Option Streamed)
      (again' : Reader → Option (Outcome InferenceResponse)) (seen : List StreamEvent) (r : Reader)
      (p : Frame)
      → ((s : List StreamEvent) (r' : Reader) → forget (again s r') ≡ again' r')
      → forget (answer_stream again seen r p) ≡ answer again' r p
  unfolding answer answer_stream
  answer-answer_stream again again' seen r (err e) k = refl
  answer-answer_stream again again' seen r (ok (none, r')) k = refl
  answer-answer_stream again again' seen r (ok (some (ServerMessage.inference_complete _), r')) k =
      refl
  answer-answer_stream again again' seen r (ok (some (ServerMessage.inference_error _), r')) k =
      refl
  answer-answer_stream again again' seen r (ok (some _, r')) k = k _ r'

  -- Dropping the callbacks, the loop of `inference_stream` returns on every stream what the loop
  -- of `inference` does, and leaves the stream at the same place.
  pub await_response-await_stream :
      (fuel : ℕ) (seen : List StreamEvent) (r : Reader)
      → forget (await_stream c fuel seen r) ≡ await_response c fuel r
  unfolding await_response await_stream
  await_response-await_stream zero seen r = refl
  await_response-await_stream (suc fuel) seen r =
      answer-answer_stream (await_stream c fuel) (await_response c fuel) seen r (read_frame c r)
        (await_response-await_stream fuel)
