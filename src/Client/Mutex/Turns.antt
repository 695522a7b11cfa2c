-- ===== src/Client/Mutex/Turns.antt =====
-- One round of the loops of model_api_client/src/sync.rs, against what the holder of the mutex does
-- with a frame.
use chitin_model_api.Client.Mutex.{is_answer, is_goodbye}
use chitin_model_api.Client.Requests.{Outcome, answer, leave}
use chitin_model_api.Client.Sync.{ClientError}
use chitin_model_api.Prelude.Result.{Result, ok}
use chitin_model_api.Prelude.{◌≡◌, refl, true, false, Option, some}
use chitin_model_api.Proto.{ServerMessage, InferenceResponse}
use chitin_model_api.Wire.{Reader}

-- The round of `inference` reads on exactly behind a frame that leaves the mutex held.
abbrev RoundOf :
    ServerMessage → (Reader → Option (Outcome InferenceResponse)) → Reader → Reader → Type 0
RoundOf m again r r' =
    (is_answer m ≡ false → answer again r (ok (some m, r')) ≡ again r')
    × (is_answer m ≡ true
        → (a : Result ClientError InferenceResponse) × (answer again r (ok (some m, r'))
            ≡ some (record { result = a; reader = r' })))

answer-RoundOf :
    (m : ServerMessage) (again : Reader → Option (Outcome InferenceResponse)) (r r' : Reader)
    → RoundOf m again r r'
unfolding answer is_answer
answer-RoundOf (ServerMessage.inference_complete resp) again r r' =
    (λ h. absurd (cc h), λ h. (ok resp, refl))
answer-RoundOf (ServerMessage.inference_error why) again r r' = (λ h. absurd (cc h), λ h. (_, refl))
answer-RoundOf (ServerMessage.hello _ _ _) again r r' = (λ h. refl, λ h. absurd (cc h))
answer-RoundOf (ServerMessage.progress _) again r r' = (λ h. refl, λ h. absurd (cc h))
answer-RoundOf (ServerMessage.chunk _) again r r' = (λ h. refl, λ h. absurd (cc h))
answer-RoundOf ServerMessage.goodbye again r r' = (λ h. refl, λ h. absurd (cc h))

-- The same of `shutdown`, which a goodbye ends.
leave-goodbye :
    (m : ServerMessage) (again : Reader → Option (Outcome (Unit {0}))) (r r' : Reader)
    → (is_goodbye m ≡ false → leave again r (ok (some m, r')) ≡ again r')
      × (is_goodbye m ≡ true
          → leave again r (ok (some m, r')) ≡ some (record { result = ok tt; reader = r' }))
unfolding leave is_goodbye
leave-goodbye (ServerMessage.inference_complete resp) again r r' = (λ h. refl, λ h. absurd (cc h))
leave-goodbye (ServerMessage.inference_error why) again r r' = (λ h. refl, λ h. absurd (cc h))
leave-goodbye (ServerMessage.hello _ _ _) again r r' = (λ h. refl, λ h. absurd (cc h))
leave-goodbye (ServerMessage.progress _) again r r' = (λ h. refl, λ h. absurd (cc h))
leave-goodbye (ServerMessage.chunk _) again r r' = (λ h. refl, λ h. absurd (cc h))
leave-goodbye ServerMessage.goodbye again r r' = (λ h. absurd (cc h), λ h. refl)
