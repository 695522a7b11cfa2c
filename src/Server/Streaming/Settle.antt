-- ===== src/Server/Streaming/Settle.antt =====
-- model_api_server/src/lib.rs: the end of a streaming request, and what the client is sent for it.
use chitin_model_api.Prelude.Lists.{length}
use chitin_model_api.Prelude.{
  ℕ, zero, suc, ◌+◌, ◌≤◌, ◌≡◌, refl, sym, ◌∙◌, Bool, false, List, [], ◌∷◌, ◌++◌, arith, map,
  append-nil,
}
use chitin_model_api.Proto.{ServerMessage}
use chitin_model_api.Server.Slot.{SlotEvent}
use chitin_model_api.Server.Streaming.Order.{at, Holds, run-Holds, start-Holds}
use chitin_model_api.Server.Streaming.{
  Phase, draining, saw_empty, tail, closed, Stream, Action, slot_step, handler_step, frame_of,
  try_send, run, start, times, settle, forwarded, channel_capacity,
}
use mathlib.Core.List.{Sublist}

module _ (last : ServerMessage) where
  -- After one more slot step than there are pending events the slot has returned; the handler has
  -- not moved.
  slots_return :
      (n : ℕ) (p : List SlotEvent) (r : Bool) (q : List SlotEvent) (w : List ServerMessage)
      (ph : Phase)
      → length p ≤ n
      → (q' : List SlotEvent) × (run last (times (suc n) slot_step) (at p r q w ph)
          ≡ at [] false q' w ph)
  unfolding run times
  slots_return zero [] r q w ph h = (q, refl)
  slots_return zero (e ∷ es) r q w ph h = elim h [ ]
  slots_return (suc n) [] r q w ph h = slots_return n [] false q w ph (omega arith)
  slots_return (suc n) (e ∷ es) r q w ph h = slots_return n es r (try_send q e) w ph (omega arith)

  abbrev need : Phase → List SlotEvent → ℕ
  need draining q = length q + 3
  need saw_empty q = length q + 2
  need tail q = length q + 1
  need closed q = 0

  handler_closes :
      (n : ℕ) (q : List SlotEvent) (w : List ServerMessage) (ph : Phase)
      → need ph q ≤ n
      → (run last (times n handler_step) (at [] false q w ph)).phase ≡ closed
  unfolding run times
  handler_closes zero q w closed h = refl
  handler_closes zero q w draining h = absurd (omega arith)
  handler_closes zero q w saw_empty h = absurd (omega arith)
  handler_closes zero q w tail h = absurd (omega arith)
  handler_closes (suc n) [] w draining h = handler_closes n [] w saw_empty (omega arith)
  handler_closes (suc n) (e ∷ q) w draining h =
      handler_closes n q (w ++ (frame_of e ∷ [])) draining (omega arith)
  handler_closes (suc n) q w saw_empty h = handler_closes n q w tail (omega arith)
  handler_closes (suc n) [] w tail h = handler_closes n [] (w ++ (last ∷ [])) closed (omega arith)
  handler_closes (suc n) (e ∷ q) w tail h =
      handler_closes n q (w ++ (frame_of e ∷ [])) tail (omega arith)
  handler_closes (suc n) q w closed h = handler_closes n q w closed (omega arith)

  need_le : (ph : Phase) (q : List SlotEvent) → need ph q ≤ length q + 4
  need_le draining q = omega arith
  need_le saw_empty q = omega arith
  need_le tail q = omega arith
  need_le closed q = omega arith

  -- Wherever slot and handler stand, the request comes to its end.
  settle-closed : (s : Stream) → (settle last s).phase ≡ closed
  unfolding settle
  settle-closed s =
      let (q, e) =
        slots_return (length s.pending) s.pending s.running s.queue s.wire s.phase (omega arith) in
      rw e (handler_closes (length q + 4) q s.wire s.phase (need_le s.phase q))

  module _ (events : List SlotEvent) where
    settle-Holds : (s : Stream) → Holds events last s → Holds events last (settle last s)
    unfolding settle
    settle-Holds s h =
        let slots = times (suc (length s.pending)) slot_step in
        let done = run last slots s in
        run-Holds events last (times (length done.queue + 4) handler_step) done
          (run-Holds events last slots s h)

    abbrev Delivered : List ServerMessage → Type 0
    Delivered wire =
        (fw : List SlotEvent) × (wire ≡ map frame_of fw ++ (last ∷ []))
        × Sublist fw events
        × (length events ≤ channel_capacity → fw ≡ events)

    nothing_left : (fw q p : List SlotEvent) → q ≡ [] → p ≡ [] → fw ++ (q ++ p) ≡ fw
    nothing_left fw q p hq hp = rw (hq, hp, append-nil)

    closed-Delivered :
        (p : List SlotEvent) (r : Bool) (q : List SlotEvent) (w : List ServerMessage) (ph : Phase)
        → Holds events last (at p r q w ph)
        → ph ≡ closed
        → Delivered w
    unfolding Holds
    closed-Delivered p r q w closed (fw, v) e =
        let left = nothing_left fw q p v.written.2 (v.returned v.written.1) in
        (fw, v.written.0, rw left at v.in_order, λ h. sym left ∙ v.complete h)
    closed-Delivered p r q w draining h e = cc
    closed-Delivered p r q w saw_empty h e = cc
    closed-Delivered p r q w tail h e = cc

  -- Under every schedule a streaming request ends, with the final response as the last frame and
  -- the only one of its kind; before it come events of the slot, each at most once and in the order
  -- in which the slot pushed them; and with at most 64 events none is lost.
  pub forwarded-Sublist :
      (schedule : List Action) (events : List SlotEvent)
      → (fw : List SlotEvent) × (forwarded schedule events last ≡ map frame_of fw ++ (last ∷ []))
        × Sublist fw events
        × (length events ≤ channel_capacity → fw ≡ events)
  unfolding forwarded
  forwarded-Sublist schedule events =
      let s = run last schedule (start events) in
      let t = settle last s in
      closed-Delivered events t.pending t.running t.queue t.wire t.phase
        (settle-Holds events s
          (run-Holds events last schedule (start events) (start-Holds events last)))
        (settle-closed s)
