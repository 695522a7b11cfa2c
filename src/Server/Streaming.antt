-- ===== src/Server/Streaming.antt =====
-- model_api_server/src/lib.rs: the streaming branch of `handle_client`. The slot runs as a task of
-- its own, and its sink puts events into a channel of 64 places with `try_send`, which drops an
-- event when the channel is full; the handler drains the channel into frames. A schedule is the
-- order in which the two take their steps. The handler keeps a sender of the channel alive for the
-- whole loop, so `try_recv` never finds it closed and that branch is not reached.
pub mod Order
pub mod Settle
use chitin_model_api.Prelude.Lists.{length}
use chitin_model_api.Prelude.Tests.{ltb, if◌then◌else◌}
use chitin_model_api.Prelude.{ℕ, zero, suc, ◌+◌, Bool, true, false, List, [], ◌∷◌, ◌++◌}
use chitin_model_api.Proto.{ServerMessage}
use chitin_model_api.Server.Slot.{SlotEvent}

abbrev pub channel_capacity : ℕ
channel_capacity = 64

-- Where the handler stands: at `try_recv`, behind an empty `try_recv`, in the tail drain, or done.
pub data Phase : Type 0 where
  draining saw_empty tail closed : Phase

pub record Stream : Type 0 where
  pub pending : List SlotEvent
  pub running : Bool
  pub queue : List SlotEvent
  pub wire : List ServerMessage
  pub phase : Phase

pub data Action : Type 0 where
  slot_step handler_step : Action

unfoldable pub frame_of : SlotEvent → ServerMessage
frame_of (SlotEvent.chunk c) = ServerMessage.chunk c
frame_of (SlotEvent.progress p) = ServerMessage.progress p

-- `try_send` on the bounded channel: a full one drops the event.
unfoldable pub try_send : List SlotEvent → SlotEvent → List SlotEvent
try_send q e = if ltb (length q) channel_capacity then q ++ (e ∷ []) else q

-- The slot's task pushes its next event, or returns.
unfoldable pub slot_does : Stream → Stream
unfolding try_send
slot_does s = elim s.pending [
  | [] ↦ record s { running = false }
  | e ∷ es ↦ record s { pending = es; queue = try_send s.queue e }
]

-- Writes the oldest queued event, or goes on as `empty` says.
unfoldable pub forward : Stream → Stream → Stream
unfolding frame_of
forward s empty = elim s.queue [
  | [] ↦ empty
  | e ∷ q ↦ record s { queue = q; wire = s.wire ++ (frame_of e ∷ []) }
]

-- One step of the handler. Behind an empty channel it looks at `is_finished`: a finished task ends
-- the loop, a running one gets the processor back.
unfoldable pub handler_does : ServerMessage → Phase → Stream → Stream
unfolding forward
handler_does last draining s = forward s (record s { phase = saw_empty })
handler_does last saw_empty s = record s { phase = if s.running then draining else tail }
handler_does last tail s = forward s (record s { wire = s.wire ++ (last ∷ []); phase = closed })
handler_does last closed s = s

unfoldable pub step : ServerMessage → Action → Stream → Stream
unfolding slot_does handler_does
step last slot_step s = slot_does s
step last handler_step s = handler_does last s.phase s

unfoldable pub run : ServerMessage → List Action → Stream → Stream
unfolding step
run last [] s = s
run last (a ∷ rest) s = run last rest (step last a s)

unfoldable pub start : List SlotEvent → Stream
start events = record { pending = events; running = true; queue = []; wire = []; phase = draining }

unfoldable pub times : ℕ → Action → List Action
times zero a = []
times (suc n) a = a ∷ times n a

-- Lets the slot finish and then the handler: enough steps of each for what is left.
unfoldable pub settle : ServerMessage → Stream → Stream
unfolding run times
settle last s =
    let done = run last (times (suc (length s.pending)) slot_step) s in
    run last (times (length done.queue + 4) handler_step) done

-- The frames of one streaming request under a schedule, the final response last.
unfoldable pub forwarded : List Action → List SlotEvent → ServerMessage → List ServerMessage
unfolding settle start
forwarded schedule events last = (settle last (run last schedule (start events))).wire
