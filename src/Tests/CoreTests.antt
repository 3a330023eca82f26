-- ===== src/Tests/CoreTests.antt =====
-- The theorems on core at concrete inputs.
use drand.Prelude.{◌≡◌, refl, Bool, false, not, some, [], ◌∷◌, arith, Bytes, bytes_equal}
use drand.Core.Broadcast.{
  deal, Packet, EchoBroadcast, new_echo_broadcast, exists, push, broadcast_dkg,
}
use drand.Core.Broadcast.Once.{IsOnce, here, then_step, arrives, pushes, Reach-IsOnce}

-- Bundles are byte strings, each its own hash; the packet with the content 9 has a bad signature.
abbrev hash_packet : Packet Bytes → Bytes
hash_packet p = p.bundle

abbrev well_signed : Packet Bytes → Bool
well_signed p = not (bytes_equal p.bundle (9 ∷ []))

abbrev board : EchoBroadcast Bytes
board = new_echo_broadcast Bytes (1 ∷ []) ((1 ∷ []) ∷ (2 ∷ []) ∷ (3 ∷ []) ∷ [])

abbrev first_deal : Packet Bytes
first_deal = record { kind = deal; bundle = 5 ∷ [] }

abbrev own_deal : Packet Bytes
own_deal = record { kind = deal; bundle = 6 ∷ [] }

abbrev after_push : EchoBroadcast Bytes
after_push = push Bytes hash_packet well_signed board own_deal

board-IsOnce : IsOnce Bytes hash_packet well_signed board
unfolding new_echo_broadcast exists
board-IsOnce h = omega arith

board_new : exists board.hashes (6 ∷ []) ≡ false
unfolding new_echo_broadcast exists
board_new = refl

Reach-IsOnce_example :
    IsOnce Bytes hash_packet well_signed
      (broadcast_dkg Bytes hash_packet well_signed after_push (some first_deal)).0
Reach-IsOnce_example =
    Reach-IsOnce Bytes hash_packet well_signed board
      (broadcast_dkg Bytes hash_packet well_signed after_push (some first_deal)).0 board-IsOnce
      (then_step (then_step here (pushes own_deal board_new)) (arrives (some first_deal)))
