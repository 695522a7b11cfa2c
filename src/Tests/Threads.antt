-- ===== src/Tests/Threads.antt =====
-- Calls from two threads on one connection.
use chitin_model_api.Client.Mutex.Exclusion.{answers, Reach-Settled, Reach-Answered}
use chitin_model_api.Client.Mutex.{
  for_answer, Link, fresh, is_answer, requests, receive, ask, conclude, read, called, answering,
  Reach, here, next, Answered,
}
use chitin_model_api.Prelude.{◌≡◌, refl, false, [], ◌∷◌, none, some, arith}
use chitin_model_api.Proto.{ClientMessage, ServerMessage}
use chitin_model_api.Tests.Codecs.{ask as request, said}

-- A request is sent and not answered yet.
abbrev asked : Link
asked = record fresh { holder = some for_answer; sent = ClientMessage.inference request ∷ [] }

abbrev response : ServerMessage
response = ServerMessage.inference_complete said

abbrev replied : Link
replied = record asked { inbound = response ∷ []; answered = 1 }

abbrev free : Link
free = record {
  holder = none;
  sent = ClientMessage.inference request ∷ [];
  inbound = [];
  answered = 1;
  returned = 1;
  broken = false;
}

fresh-asked : Reach fresh asked
fresh-asked = next here (called (ask fresh request refl))

read_response : Reach fresh free
unfolding requests is_answer receive
read_response =
    next (next fresh-asked (answering (conclude asked response refl (omega arith))))
      (answering (read replied for_answer response [] refl refl))

Reach-Settled_example :
    (free.returned ≡ requests free.sent)
    × (free.answered ≡ requests free.sent)
    × (answers free.inbound ≡ 0)
Reach-Settled_example = Reach-Settled free read_response refl refl

Reach-Answered_example : (u : Link) × Answered asked u × (u.holder ≡ none)
Reach-Answered_example = Reach-Answered asked fresh-asked refl refl
