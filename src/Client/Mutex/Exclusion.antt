-- ===== src/Client/Mutex/Exclusion.antt =====
-- What is outstanding while the mutex is free.
use chitin_model_api.Client.Mutex.{
  Waiting, for_answer, for_goodbye, Link, fresh, is_answer, is_goodbye, requests, receive, Call,
  ask, cancel, leave, Answering, tell, conclude, read, Step, called, answering, fails, Reach, here,
  next, Answered, at_once, further,
}
use chitin_model_api.Prelude.Tests.{ltb, if◌then◌else◌, Bool-cases}
use chitin_model_api.Prelude.{
  ℕ, suc, ◌+◌, ◌≤◌, ◌<◌, ◌≡◌, refl, ap, inl, inr, false, List, [], ◌∷◌, ◌++◌, Option, none, some,
  arith,
}
use chitin_model_api.Proto.{ClientMessage, ServerMessage}

-- The answers among frames that no call has read.
unfoldable pub answers : List ServerMessage → ℕ
answers [] = 0
answers (m ∷ ms) = if is_answer m then suc (answers ms) else answers ms

abbrev waits : Option Waiting → ℕ
waits none = 0
waits (some for_answer) = 1
waits (some for_goodbye) = 0

-- While the stream is whole, the calls that wait for an answer are the requests without a returned
-- one, and the answers that were written are returned or unread.
abbrev Balanced : Link → Type 0
Balanced s =
    s.broken ≡ false
    → (requests s.sent ≡ s.returned + waits s.holder)
      × (s.answered ≡ s.returned + answers s.inbound)
      × (s.answered ≤ requests s.sent)

requests-append :
    (ms : List ClientMessage) (m : ClientMessage)
    → requests (ms ++ (m ∷ [])) ≡ requests ms + requests (m ∷ [])
unfolding requests
requests-append [] m = omega arith
requests-append (ClientMessage.inference r ∷ ms) m = omega (arith, requests-append ms m)
requests-append (ClientMessage.hello v ∷ ms) m = requests-append ms m
requests-append (ClientMessage.cancel ∷ ms) m = requests-append ms m
requests-append (ClientMessage.shutdown ∷ ms) m = requests-append ms m

answers-append :
    (ms : List ServerMessage) (m : ServerMessage)
    → answers (ms ++ (m ∷ [])) ≡ answers ms + answers (m ∷ [])
unfolding answers
answers-append [] m = omega arith
answers-append (x ∷ ms) m = ground (arith, answers-append ms m)

Call-Balanced : {s t : Link} → Call s t → Balanced s → Balanced t
unfolding requests
Call-Balanced (ask s req h) b w =
    let (p, q, r) = b w in
    let i = ap waits h in
    let j = requests-append s.sent (ClientMessage.inference req) in
    (omega (arith, p, i, j), q, omega (arith, r, j))
Call-Balanced (cancel s h) b w =
    let (p, q, r) = b w in
    let j = requests-append s.sent ClientMessage.cancel in
    (omega (arith, p, j), q, omega (arith, r, j))
Call-Balanced (leave s h) b w =
    let (p, q, r) = b w in
    let i = ap waits h in
    let j = requests-append s.sent ClientMessage.shutdown in
    (omega (arith, p, i, j), q, omega (arith, r, j))

receive_answer :
    (s : Link) (m : ServerMessage) (rest : List ServerMessage)
    → s.holder ≡ some for_answer
    → s.inbound ≡ m ∷ rest
    → Balanced s
    → Balanced (receive for_answer m rest s)
unfolding receive answers
receive_answer s m rest h i b = elim (Bool-cases (is_answer m)) [
  | inl e ↦ rw e (λ w.
      let (p, q, r) = b w in
      let j = ap waits h in
      let k : answers s.inbound ≡ suc (answers rest) = rw (i, answers, e) refl in
      (omega (arith, p, j), omega (arith, q, k), r))
  | inr e ↦ rw e (λ w.
      let (p, q, r) = b w in
      let k : answers s.inbound ≡ answers rest = rw (i, answers, e) refl in
      (p, omega (arith, q, k), r))
]

-- A call that waits for the goodbye finds no answer on the stream.
no_answer :
    (s : Link) (m : ServerMessage) (rest : List ServerMessage)
    → s.holder ≡ some for_goodbye
    → s.inbound ≡ m ∷ rest
    → Balanced s
    → s.broken ≡ false
    → answers s.inbound ≡ answers rest
unfolding answers
no_answer s m rest h i b w =
    let (p, q, r) = b w in
    let j = ap waits h in
    let none_left : answers s.inbound ≡ 0 = omega (arith, p, q, r, j) in
    elim (Bool-cases (is_answer m)) [
      | inl e ↦
          let k : answers s.inbound ≡ suc (answers rest) = rw (i, answers, e) refl in
          absurd (omega (arith, k, none_left))
      | inr e ↦ rw (i, answers, e) refl
    ]

receive_goodbye :
    (s : Link) (m : ServerMessage) (rest : List ServerMessage)
    → s.holder ≡ some for_goodbye
    → s.inbound ≡ m ∷ rest
    → Balanced s
    → Balanced (receive for_goodbye m rest s)
unfolding receive
receive_goodbye s m rest h i b = elim (Bool-cases (is_goodbye m)) [
  | inl e ↦ rw e (λ w.
      let (p, q, r) = b w in
      let j = ap waits h in (omega (arith, p, j), omega (arith, q, no_answer s m rest h i b w), r))
  | inr e ↦ rw e (λ w. let (p, q, r) = b w in (p, omega (arith, q, no_answer s m rest h i b w), r))
]

Answering-Balanced : {s t : Link} → Answering s t → Balanced s → Balanced t
unfolding answers
Answering-Balanced (tell s m h) b w =
    let (p, q, r) = b w in
    let k : answers (m ∷ []) ≡ 0 = rw (h, answers) refl in
    (p, omega (arith, q, answers-append s.inbound m, k), r)
Answering-Balanced (conclude s m h k) b w =
    let (p, q, r) = b w in
    let l : answers (m ∷ []) ≡ 1 = rw (h, answers) refl in
    (p, omega (arith, q, answers-append s.inbound m, l), omega (arith, k))
Answering-Balanced (read s for_answer m rest h i) b w = receive_answer s m rest h i b w
Answering-Balanced (read s for_goodbye m rest h i) b w = receive_goodbye s m rest h i b w

Step-Balanced : {s t : Link} → Step s t → Balanced s → Balanced t
Step-Balanced (called c) b = Call-Balanced c b
Step-Balanced (answering a) b = Answering-Balanced a b
Step-Balanced (fails s) b = λ e. absurd (cc e)

Reach-Balanced : {s : Link} → Reach fresh s → Balanced s
unfolding requests answers
Reach-Balanced here = λ w. (refl, refl, omega arith)
Reach-Balanced (next r st) = Step-Balanced st (Reach-Balanced r)

-- Whenever the mutex of a whole stream is free, so whenever a cancel can be sent, every request that
-- was sent has been answered, its answer has been returned by a call, and no answer is unread.
pub Reach-Settled :
    (s : Link)
    → Reach fresh s
    → s.broken ≡ false
    → s.holder ≡ none
    → (s.returned ≡ requests s.sent) × (s.answered ≡ requests s.sent) × (answers s.inbound ≡ 0)
Reach-Settled s r w h =
    let (p, q, l) = Reach-Balanced r w in
    let j = ap waits h in
    (omega (arith, p, j), omega (arith, p, q, l, j), omega (arith, p, q, l, j))

-- The holder reads on to the answer that is on the stream.
read_on :
    (ms : List ServerMessage) (s t : Link)
    → Answered s t
    → t.inbound ≡ ms
    → t.holder ≡ some for_answer
    → 0 < answers ms
    → (u : Link) × Answered s u × (u.holder ≡ none)
unfolding answers receive
read_on [] s t a i h n = absurd (omega arith)
read_on (m ∷ ms) s t a i h n =
    let a' = further a (read t for_answer m ms h i) in
    elim (Bool-cases (is_answer m)) [
      | inl e ↦ (receive for_answer m ms t, a', rw e refl)
      | inr e ↦
          let k : answers (m ∷ ms) ≡ answers ms = rw (e, answers) refl in
          read_on ms s (receive for_answer m ms t) a' (rw e refl) (rw e h) (omega (arith, k))
    ]

-- From every state with a whole stream in which a call waits for its answer, the server and that call
-- alone can go on to a state in which the mutex is free: no step of another thread is needed.
pub Reach-Answered :
    (s : Link)
    → Reach fresh s
    → s.broken ≡ false
    → s.holder ≡ some for_answer
    → (u : Link) × Answered s u × (u.holder ≡ none)
unfolding answers is_answer
Reach-Answered s r w h = elim (Bool-cases (ltb 0 (answers s.inbound))) [
  | inl e ↦ read_on s.inbound s s at_once refl h (ground (arith, e))
  | inr e ↦
      let (p, q, l) = Reach-Balanced r w in
      let j = ap waits h in
      let m = ServerMessage.inference_error [] in
      let k = answers-append s.inbound m in
      let a : Answering s
          (record s { inbound = s.inbound ++ (m ∷ []); answered = s.answered + 1 }) =
        conclude s m refl (ground (arith, e, p, q, j)) in
      read_on (s.inbound ++ (m ∷ [])) s _ (further at_once a) refl h (omega (arith, k))
]
