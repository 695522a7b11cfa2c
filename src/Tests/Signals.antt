-- ===== src/Tests/Signals.antt =====
-- Signals that come while requests are answered.
use chitin_model_api.Cache.Cancel.Delivery.{cancel_in_flight-Live, cancel_in_flight_exact}
use chitin_model_api.Cache.Cancel.{
  Armed, idle, Among, arm, disarm, cancel_with, cancel_in_flight, Reach, here, arms, at_start,
  starts,
}
use chitin_model_api.Prelude.Lists.{length}
use chitin_model_api.Prelude.Tests.{ltb}
use chitin_model_api.Prelude.{ℕ, ◌≡◌, refl, false, [], ◌∷◌, some}

-- Two requests overlap, and the second is the last one that armed the token.
abbrev two : Armed
two = record { cancel_token = some 2; sending = 2 ∷ 1 ∷ []; cancelled = [] }

two_reached : Reach idle two
unfolding arm
two_reached = arms (arms here 1) 2

cancel_in_flight-Live_example :
    (h : ℕ) × Among h two.sending
    × (record two { cancelled = 2 ∷ [] } ≡ record two { cancelled = h ∷ [] })
unfolding cancel_in_flight cancel_with
cancel_in_flight-Live_example =
    cancel_in_flight-Live two (record two { cancelled = 2 ∷ [] }) two_reached refl

-- The end of one of them leaves the other without a handle.
lost : (cancel_in_flight (disarm 1 two)).0 ≡ false
unfolding cancel_in_flight cancel_with disarm
lost = refl

cancel_in_flight_exact_example :
    (cancel_in_flight (arm 4 idle)).0 ≡ ltb 0 (length (arm 4 idle).sending)
cancel_in_flight_exact_example = cancel_in_flight_exact (arm 4 idle) (starts at_start 4 refl)
