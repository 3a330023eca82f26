-- ===== src/Core/Push.antt =====
-- core/drand_control.go: the leader pushes the group to the nodes of the old and of the new one, and waits
-- for their replies. The signature of the key generation is a parameter, its error none; so is which
-- reply or timeout comes when.
pub mod Counts
use drand.Prelude.{
  ℕ, zero, suc, ◌-◌, Bool, true, false, not, ◌&&◌, ◌||◌, Option, none, some, List, [], ◌∷◌, ◌++◌,
  any, filter, length, if◌then◌else◌, Bytes, bytes_equal,
}
use drand.Prelude.Int.{ℤ, pos, ltb_ℤ, ◌-ℤ◌}
use drand.Key.Suite.{Suite}
use drand.Key.Identity.{Identity}
use drand.Key.Node.{Node}
use drand.Key.Group.{Group, group_hash}
use drand.Key.Wire.{group_to_proto}
use drand.Core.Setup.Receiver.{DkgInfoPacket}

-- A reply with the address of the node and whether it has no error, or the clock after a minute
pub data PushEvent : Type 0 where
  replied : Bytes → Bool → PushEvent
  minute : PushEvent

-- What pushDKGInfo returns; it waits while it needs another event.
pub data PushOutcome : Type 0 where
  succeeded group_timeout group_failure signing_failed waiting : PushOutcome

abbrev pub is_positive : ℤ → Bool
is_positive z = ltb_ℤ (pos 0) z

module _ (K : Suite) where
  -- nodesContainAddr
  unfoldable pub nodes_contain_addr : List (Node K) → Bytes → Bool
  nodes_contain_addr nodes addr =
      any (λ (n : Node K). let id = n.identity in bytes_equal id.addr addr) nodes

  -- nodeUnion
  unfoldable pub node_union : List (Node K) → List (Node K) → List (Node K)
  unfolding nodes_contain_addr
  node_union a b =
      a ++ filter (λ (n : Node K). let id = n.identity in not (nodes_contain_addr a id.addr)) b

  -- The nodes that pushDKGInfoPacket sends to
  unfoldable pub receivers : Bytes → List (Node K) → List (Node K)
  receivers own nodes =
      filter (λ (n : Node K). let id = n.identity in not (bytes_equal id.addr own)) nodes

  -- One less where the address is in the group
  abbrev pub less_if : List (Node K) → Bytes → ℤ → ℤ
  less_if nodes addr threshold =
      if nodes_contain_addr nodes addr then threshold -ℤ pos 1 else threshold

  -- The loop of pushDKGInfo: the replies to come, and the thresholds that are left
  unfoldable pub collect : List (Node K) → List (Node K) → ℕ → ℤ → ℤ → List PushEvent → PushOutcome
  unfolding nodes_contain_addr
  collect outgoing incoming zero previous new events =
      if is_positive previous || is_positive new then group_failure else succeeded
  collect outgoing incoming (suc total) previous new [] = waiting
  collect outgoing incoming (suc total) previous new (minute ∷ events) =
      if not (is_positive previous) && not (is_positive new) then succeeded else group_timeout
  collect outgoing incoming (suc total) previous new (replied addr false ∷ events) =
      collect outgoing incoming total previous new events
  collect outgoing incoming (suc total) previous new (replied addr true ∷ events) =
      collect outgoing incoming total (less_if outgoing addr previous) (less_if incoming addr new)
        events

  -- The packet of pushDKGInfo. Hash leaves the nodes in the order of their indices.
  unfoldable pub info_packet : Group K → Bytes → ℕ → Bytes → DkgInfoPacket
  unfolding group_hash group_to_proto
  info_packet group secret timeout signature = record {
    new_group = (group_to_proto K (group_hash K group).1).0;
    secret_proof = secret;
    dkg_timeout = timeout;
    signature = signature;
  }

  module _ (dkg_sign : Bytes → Option Bytes) where
    -- pushDKGInfo of the node with the address `own`: the packet, the nodes it goes to, and the outcome
    unfoldable pub push_signed :
        Bytes
        → List (Node K)
        → List (Node K)
        → ℕ
        → Group K
        → Bytes
        → ℕ
        → List PushEvent
        → Option Bytes
        → Option (DkgInfoPacket × List (Node K)) × PushOutcome
    unfolding info_packet node_union receivers collect
    push_signed own outgoing incoming previous group secret timeout events none =
        (none, signing_failed)
    push_signed own outgoing incoming previous group secret timeout events (some signature) =
        let to = node_union outgoing incoming in
        (
          some (info_packet group secret timeout signature, receivers own to),
          collect outgoing incoming (length to - 1) (less_if outgoing own (pos previous))
              (less_if incoming own (pos group.threshold)) events,
        )

    unfoldable pub push_group :
        Bytes
        → List (Node K)
        → List (Node K)
        → ℕ
        → Group K
        → Bytes
        → ℕ
        → List PushEvent
        → Option (DkgInfoPacket × List (Node K)) × PushOutcome
    unfolding push_signed
    push_group own outgoing incoming previous group secret timeout events =
        push_signed own outgoing incoming previous group secret timeout events
          (dkg_sign (group_hash K group).0)
