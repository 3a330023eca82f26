-- ===== src/Tests/HttpTests.antt =====
-- The public server at concrete inputs: a result's JSON form is its round.
use drand.Prelude.{ℕ, ◌≡◌, refl, none, List, [], ◌∷◌, Bytes, All}
use drand.Client.Verify.{RandomData}
use drand.Http.{Handler, Waiter, ServerEvent, comes, fails, joins, deliveries}
use drand.Http.Waiters.{IsInStep, IsRight, deliveries-IsRight}

abbrev round_only : RandomData → Bytes
round_only r = r.rnd ∷ []

abbrev result_at : ℕ → RandomData
result_at r = record { rnd = r; random = []; sig = []; previous_signature = none }

abbrev idle : Handler
idle = record { chain_info = none; pending = []; latest_round = 0 }

abbrev eleventh : Waiter
eleventh = record { id = 1; round = 11 }

-- A waiter for round 11 joins at round 10 and gets that round.
abbrev well : List (ServerEvent round_only)
well = comes (result_at 10) ∷ joins eleventh ∷ comes (result_at 11) ∷ []

idle-IsInStep : IsInStep round_only idle
idle-IsInStep = record { next = tt; seen = λ e. refl }

deliveries-IsRight_example : All (IsRight round_only) (deliveries round_only idle well)
deliveries-IsRight_example = deliveries-IsRight round_only well idle idle-IsInStep tt

well_delivered : deliveries round_only idle well ≡ (eleventh, 11 ∷ []) ∷ []
unfolding deliveries
well_delivered = refl

-- When the stream fails while the waiter waits, it gets the round that comes next, here round 12.
abbrev broken : List (ServerEvent round_only)
broken = comes (result_at 10) ∷ joins eleventh ∷ fails ∷ comes (result_at 12) ∷ []

other_round_delivered : deliveries round_only idle broken ≡ (eleventh, 12 ∷ []) ∷ []
unfolding deliveries
other_round_delivered = refl
