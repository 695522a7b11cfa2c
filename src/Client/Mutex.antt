-- ===== src/Client/Mutex.antt =====
-- model_api_client/src/sync.rs: calls from several threads. Each of `inference`, `inference_stream`,
-- `cancel` and `shutdown` takes the mutex of the stream before its frame and gives it back when it
-- returns, so the threads take turns; a thread that waits for the mutex takes no step. The server
-- writes frames at any time. A call whose read or write fails, as at the end of the stream, or whose
-- callback panics, gives the mutex back and leaves a broken stream, on which the model allows more
-- than the code, whose mutex is poisoned by a panic.
pub mod Exclusion
pub mod Turns
use chitin_model_api.Prelude.Lists.{length}
use chitin_model_api.Prelude.Tests.{if◌then◌else◌}
use chitin_model_api.Prelude.{
  ℕ, suc, ◌+◌, ◌<◌, ◌≡◌, Bool, true, false, List, [], ◌∷◌, ◌++◌, Option, none, some,
}
use chitin_model_api.Proto.{ClientMessage, ServerMessage, InferenceRequest}

-- What the call that holds the mutex waits for.
pub data Waiting : Type 0 where
  for_answer for_goodbye : Waiting

-- The client's frames so far; the frames of the server that no call has read; how many requests the
-- server has answered; and how many answers have been returned by calls.
pub record Link : Type 0 where
  pub holder : Option Waiting
  pub sent : List ClientMessage
  pub inbound : List ServerMessage
  pub answered : ℕ
  pub returned : ℕ
  pub broken : Bool

abbrev pub fresh : Link
fresh = record {
  holder = none;
  sent = [];
  inbound = [];
  answered = 0;
  returned = 0;
  broken = false;
}

-- `InferenceComplete` and `InferenceError`.
unfoldable pub is_answer : ServerMessage → Bool
is_answer (ServerMessage.inference_complete _) = true
is_answer (ServerMessage.inference_error _) = true
is_answer (ServerMessage.hello _ _ _) = false
is_answer (ServerMessage.progress _) = false
is_answer (ServerMessage.chunk _) = false
is_answer ServerMessage.goodbye = false

unfoldable pub is_goodbye : ServerMessage → Bool
is_goodbye ServerMessage.goodbye = true
is_goodbye (ServerMessage.inference_complete _) = false
is_goodbye (ServerMessage.inference_error _) = false
is_goodbye (ServerMessage.hello _ _ _) = false
is_goodbye (ServerMessage.progress _) = false
is_goodbye (ServerMessage.chunk _) = false

unfoldable pub requests : List ClientMessage → ℕ
requests [] = 0
requests (ClientMessage.inference _ ∷ ms) = suc (requests ms)
requests (ClientMessage.hello _ ∷ ms) = requests ms
requests (ClientMessage.cancel ∷ ms) = requests ms
requests (ClientMessage.shutdown ∷ ms) = requests ms

-- The holder's loop on one frame, with `rest` behind it: an answer or a goodbye ends the call.
unfoldable pub receive : Waiting → ServerMessage → List ServerMessage → Link → Link
unfolding is_answer is_goodbye
receive for_answer m rest s =
    if is_answer m
    then record s { holder = none; inbound = rest; returned = s.returned + 1 }
    else record s { inbound = rest }
receive for_goodbye m rest s =
    if is_goodbye m then record s { holder = none; inbound = rest } else record s { inbound = rest }

-- A step of a thread that takes the free mutex.
pub data Call : Link → Link → Type 0 where
  ask :
      (s : Link) (req : InferenceRequest)
      → s.holder ≡ none
      → Call s (record s {
        holder = some for_answer;
        sent = s.sent ++ (ClientMessage.inference req ∷ []);
      })
  cancel :
      (s : Link)
      → s.holder ≡ none
      → Call s (record s { sent = s.sent ++ (ClientMessage.cancel ∷ []) })
  leave :
      (s : Link)
      → s.holder ≡ none
      → Call s
          (record s { holder = some for_goodbye; sent = s.sent ++ (ClientMessage.shutdown ∷ []) })

-- A step of the server, which answers no more requests than it got, or of the holder's reading loop.
pub data Answering : Link → Link → Type 0 where
  tell :
      (s : Link) (m : ServerMessage)
      → is_answer m ≡ false
      → Answering s (record s { inbound = s.inbound ++ (m ∷ []) })
  conclude :
      (s : Link) (m : ServerMessage)
      → is_answer m ≡ true
      → s.answered < requests s.sent
      → Answering s (record s { inbound = s.inbound ++ (m ∷ []); answered = s.answered + 1 })
  read :
      (s : Link) (w : Waiting) (m : ServerMessage) (rest : List ServerMessage)
      → s.holder ≡ some w
      → s.inbound ≡ m ∷ rest
      → Answering s (receive w m rest s)

-- `fails` is a failed write of the call that takes the mutex, or a failed read or
-- a panic of the one that has it.
pub data Step : Link → Link → Type 0 where
  called : {s t : Link} → Call s t → Step s t
  answering : {s t : Link} → Answering s t → Step s t
  fails : (s : Link) → Step s (record s { holder = none; broken = true })

pub data Reach (s : Link) : Link → Type 0 where
  here : Reach s s
  next : {t u : Link} → Reach s t → Step t u → Reach s u

-- Runs in which the server and the holder alone take steps.
pub data Answered (s : Link) : Link → Type 0 where
  at_once : Answered s s
  further : {t u : Link} → Answered s t → Answering t u → Answered s u
