-- ===== src/Server/Streaming/Order.antt =====
-- model_api_server/src/lib.rs: the frames of a streaming request at every step.
use chitin_model_api.Prelude.Lists.{length, length-append}
use chitin_model_api.Prelude.Tests.{ltb, Bool-cases, ltb→lt}
use chitin_model_api.Prelude.{
  ◌≤◌, ◌<◌, ◌≡◌, refl, ap, Bool, true, false, List, [], ◌∷◌, ◌++◌, arith, map, append_assoc, inl,
  inr,
}
use chitin_model_api.Proto.{ServerMessage}
use chitin_model_api.Server.Slot.{SlotEvent}
use chitin_model_api.Server.Streaming.{
  Phase, draining, saw_empty, tail, closed, Stream, Action, slot_step, handler_step, frame_of,
  slot_does, handler_does, step, run, start, channel_capacity,
}
use mathlib.Core.List.Sublist
use mathlib.Core.List.{Sublist, map-append}

-- What has been written, by phase: the forwarded events, and behind them the final response once
-- the handler is done.
abbrev pub Written : ServerMessage → Phase → List SlotEvent → Stream → Type 0
Written last closed fw s =
    (s.wire ≡ map frame_of fw ++ (last ∷ [])) × (s.running ≡ false) × (s.queue ≡ [])
Written last tail fw s = (s.wire ≡ map frame_of fw) × (s.running ≡ false)
Written last _ fw s = s.wire ≡ map frame_of fw

abbrev pub at : List SlotEvent → Bool → List SlotEvent → List ServerMessage → Phase → Stream
at p r q w ph = record { pending = p; running = r; queue = q; wire = w; phase = ph }

-- `fw` are the events forwarded so far.
pub record Inv (events : List SlotEvent) (last : ServerMessage) (fw : List SlotEvent) (s : Stream)
    : Type 0 where
  pub in_order : Sublist (fw ++ (s.queue ++ s.pending)) events
  pub in_room : length s.queue ≤ channel_capacity
  pub complete : length events ≤ channel_capacity → fw ++ (s.queue ++ s.pending) ≡ events
  pub returned : s.running ≡ false → s.pending ≡ []
  pub written : Written last s.phase fw s

module _ (events : List SlotEvent) (last : ServerMessage) where
  drop_middle :
      (xs ys : List SlotEvent) (e : SlotEvent)
      → Sublist (xs ++ (e ∷ ys)) events
      → Sublist (xs ++ ys) events
  drop_middle xs ys e h =
      Sublist.trans (Sublist.append (Sublist.refl xs) (Sublist.cons e (Sublist.refl ys))) h

  Written-return :
      (ph : Phase) (fw q : List SlotEvent) (r : Bool) (w : List ServerMessage)
      → Written last ph fw (at [] r q w ph)
      → Written last ph fw (at [] false q w ph)
  Written-return draining fw q r w h = h
  Written-return saw_empty fw q r w h = h
  Written-return tail fw q r w h = (h.0, refl)
  Written-return closed fw q r w h = (h.0, refl, h.2)

  -- While events are pending the slot has not returned, so the handler is in its loop.
  Written-emit :
      (ph : Phase) (fw es q q' : List SlotEvent) (e : SlotEvent) (r : Bool) (w : List ServerMessage)
      → Written last ph fw (at (e ∷ es) r q w ph)
      → (r ≡ false → (e ∷ es) ≡ [])
      → Written last ph fw (at es r q' w ph)
  Written-emit draining fw es q q' e r w h k = h
  Written-emit saw_empty fw es q q' e r w h k = h
  Written-emit tail fw es q q' e r w h k = let bad : (e ∷ es) ≡ [] = k h.1 in cc
  Written-emit closed fw es q q' e r w h k = let bad : (e ∷ es) ≡ [] = k h.1 in cc

  return-Inv :
      (fw : List SlotEvent) (r : Bool) (q : List SlotEvent) (w : List ServerMessage) (ph : Phase)
      → Inv events last fw (at [] r q w ph)
      → Inv events last fw (at [] false q w ph)
  return-Inv fw r q w ph v = record {
    in_order = v.in_order;
    in_room = v.in_room;
    complete = v.complete;
    returned = λ _. refl;
    written = Written-return ph fw q r w v.written;
  }

  no_emit :
      (e : SlotEvent) (es : List SlotEvent) (r : Bool)
      → (r ≡ false → (e ∷ es) ≡ [])
      → r ≡ false
      → es ≡ []
  no_emit e es r k h = let bad : (e ∷ es) ≡ [] = k h in cc

  accept-Inv :
      (fw : List SlotEvent) (e : SlotEvent) (es : List SlotEvent) (r : Bool) (q : List SlotEvent)
      (w : List ServerMessage) (ph : Phase)
      → length q < channel_capacity
      → Inv events last fw (at (e ∷ es) r q w ph)
      → Inv events last fw (at es r (q ++ (e ∷ [])) w ph)
  accept-Inv fw e es r q w ph l v = record {
    in_order = rw append_assoc v.in_order;
    in_room = omega (arith, length-append q (e ∷ []));
    complete = λ h. rw append_assoc (v.complete h);
    returned = no_emit e es r v.returned;
    written = Written-emit ph fw es q (q ++ (e ∷ [])) e r w v.written v.returned;
  }

  drop-Inv :
      (fw : List SlotEvent) (e : SlotEvent) (es : List SlotEvent) (r : Bool) (q : List SlotEvent)
      (w : List ServerMessage) (ph : Phase)
      → channel_capacity ≤ length q
      → Inv events last fw (at (e ∷ es) r q w ph)
      → Inv events last fw (at es r q w ph)
  drop-Inv fw e es r q w ph l v = record {
    in_order =
        rw (← append_assoc fw q es)
          (drop_middle (fw ++ q) es e (rw (append_assoc fw q (e ∷ es)) v.in_order));
    in_room = v.in_room;
    complete = λ h. absurd (
        omega (
          arith,
          h,
          l,
          ap length (v.complete h),
          length-append fw (q ++ (e ∷ es)),
          length-append q (e ∷ es),
        ));
    returned = no_emit e es r v.returned;
    written = Written-emit ph fw es q q e r w v.written v.returned;
  }

  slot-Inv :
      (fw p : List SlotEvent) (r : Bool) (q : List SlotEvent) (w : List ServerMessage) (ph : Phase)
      → Inv events last fw (at p r q w ph)
      → Inv events last fw (slot_does (at p r q w ph))
  slot-Inv fw [] r q w ph v = unfold slot_does in return-Inv fw r q w ph v
  slot-Inv fw (e ∷ es) r q w ph v = elim (Bool-cases (ltb (length q) channel_capacity)) [
    | inl room ↦ rw (sends room) (accept-Inv fw e es r q w ph (ltb→lt _ _ room) v)
    | inr full ↦ rw (drops full) (drop-Inv fw e es r q w ph (ground arith) v)
  ]
    where
      sends :
          ltb (length q) channel_capacity ≡ true
          → slot_does (at (e ∷ es) r q w ph) ≡ at es r (q ++ (e ∷ [])) w ph
      sends h = unfold slot_does in rw h

      drops :
          ltb (length q) channel_capacity ≡ false
          → slot_does (at (e ∷ es) r q w ph) ≡ at es r q w ph
      drops h = unfold slot_does in rw h

  wire-concat :
      (fw : List SlotEvent) (e : SlotEvent) (w : List ServerMessage)
      → w ≡ map frame_of fw
      → w ++ (frame_of e ∷ []) ≡ map frame_of (fw ++ (e ∷ []))
  wire-concat fw e w h = rw (map-append, h)

  forward-Inv :
      (fw p : List SlotEvent) (r : Bool) (e : SlotEvent) (q : List SlotEvent)
      (w : List ServerMessage) (ph : Phase)
      → Inv events last fw (at p r (e ∷ q) w ph)
      → Written last ph (fw ++ (e ∷ [])) (at p r q (w ++ (frame_of e ∷ [])) ph)
      → Inv events last (fw ++ (e ∷ [])) (at p r q (w ++ (frame_of e ∷ [])) ph)
  forward-Inv fw p r e q w ph v h = record {
    in_order = rw append_assoc v.in_order;
    in_room = omega (arith, v.in_room);
    complete = λ k. rw append_assoc (v.complete k);
    returned = v.returned;
    written = h;
  }

  -- The handler's step, with the events that have been forwarded after it.
  handler-Inv :
      (fw p : List SlotEvent) (r : Bool) (q : List SlotEvent) (w : List ServerMessage) (ph : Phase)
      → Inv events last fw (at p r q w ph)
      → (fw' : List SlotEvent) × Inv events last fw' (handler_does last ph (at p r q w ph))
  unfolding handler_does
  handler-Inv fw p r [] w draining v = (
    fw,
    record {
      in_order = v.in_order;
      in_room = v.in_room;
      complete = v.complete;
      returned = v.returned;
      written = v.written;
    },
  )
  handler-Inv fw p r (e ∷ q) w draining v =
      (fw ++ (e ∷ []), forward-Inv fw p r e q w draining v (wire-concat fw e w v.written))
  handler-Inv fw p true q w saw_empty v = (
    fw,
    record {
      in_order = v.in_order;
      in_room = v.in_room;
      complete = v.complete;
      returned = v.returned;
      written = v.written;
    },
  )
  handler-Inv fw p false q w saw_empty v = (
    fw,
    record {
      in_order = v.in_order;
      in_room = v.in_room;
      complete = v.complete;
      returned = v.returned;
      written = (v.written, refl);
    },
  )
  handler-Inv fw p r [] w tail v = (
    fw,
    record {
      in_order = v.in_order;
      in_room = v.in_room;
      complete = v.complete;
      returned = v.returned;
      written = (ap (λ (x : List ServerMessage). x ++ (last ∷ [])) v.written.0, v.written.1, refl);
    },
  )
  handler-Inv fw p r (e ∷ q) w tail v = (
    fw ++ (e ∷ []),
    forward-Inv fw p r e q w tail v (wire-concat fw e w v.written.0, v.written.1),
  )
  handler-Inv fw p r q w closed v = (fw, v)

  unfoldable pub Holds : Stream → Type 0
  Holds s = (fw : List SlotEvent) × Inv events last fw s

  step-Holds : (a : Action) (s : Stream) → Holds s → Holds (step last a s)
  unfolding step Holds
  step-Holds slot_step s (fw, v) = (fw, slot-Inv fw s.pending s.running s.queue s.wire s.phase v)
  step-Holds handler_step s (fw, v) = handler-Inv fw s.pending s.running s.queue s.wire s.phase v

  pub run-Holds : (actions : List Action) (s : Stream) → Holds s → Holds (run last actions s)
  unfolding run
  run-Holds [] s h = h
  run-Holds (a ∷ rest) s h = run-Holds rest (step last a s) (step-Holds a s h)

  pub start-Holds : Holds (start events)
  unfolding start Holds
  start-Holds = (
    [],
    record {
      in_order = Sublist.refl events;
      in_room = omega arith;
      complete = λ _. refl;
      returned = λ h. cc;
      written = refl;
    },
  )
