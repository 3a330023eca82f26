-- ===== src/Client/Aggregator/Distribution.antt =====
-- client/aggregator.go: who gets the results, and who is closed.
use drand.Prelude.{
  ℕ, ◌+◌, ◌≡◌, ◌≤◌, refl, true, not, List, [], ◌∷◌, ◌++◌, map, filter, length, arith, Bool-cases,
  inl, inr,
}
use drand.Client.Verify.{RandomData}
use drand.Client.Aggregator.{
  aggregator_watch_buffer, Subscriber, Received, message, watch_ended, first_done, send, is_done,
  distribute_to,
}

-- A result goes to the subscribers whose context is not done, in their order, and the channels of the
-- others are closed.
pub distribute_to-message :
    (done : List ℕ) (m : RandomData) (ss : List Subscriber)
    → distribute_to done (message m) ss ≡ (
      map (λ (s : Subscriber). send s (message m)) (filter (λ s. not (is_done done s)) ss),
      map (λ (s : Subscriber). record s { closed = true }) (filter (λ s. is_done done s) ss),
    )
unfolding distribute_to
distribute_to-message done m [] = refl
distribute_to-message done m (s ∷ ss) = elim (Bool-cases (is_done done s)) [
  | inl over ↦ rw (distribute_to-message done m ss, over, filter) refl
  | inr lasting ↦ rw (distribute_to-message done m ss, lasting, filter) refl
]

-- When the context of the first subscriber is done, the channels of all subscribers are closed, and the
-- distribution ends, though the contexts of the others are not done.
pub distribute_to-first_done :
    (done : List ℕ) (ss : List Subscriber)
    → distribute_to done first_done ss
      ≡ ([], map (λ (s : Subscriber). record s { closed = true }) ss)
unfolding distribute_to
distribute_to-first_done done [] = refl
distribute_to-first_done done (s ∷ ss) = rw (distribute_to-first_done done ss) refl

-- Five results at most wait in a channel.
abbrev pub IsBounded : Subscriber → Type 0
IsBounded s = length s.buffer ≤ aggregator_watch_buffer

length-snoc : (l : List RandomData) (m : RandomData) → length (l ++ m ∷ []) ≡ length l + 1
length-snoc [] m = refl
length-snoc (x ∷ l) m = omega (arith, length-snoc l m)

send-IsBounded : (s : Subscriber) (r : Received) → IsBounded s → IsBounded (send s r)
unfolding send
send-IsBounded s (message m) b = ground (arith, length-snoc s.buffer m)
send-IsBounded s watch_ended b = b
send-IsBounded s first_done b = b
