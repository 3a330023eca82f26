-- ===== src/Tests/SetupTests.antt =====
-- The setup of a group at concrete inputs: two nodes, the first of them the leader.
use drand.Prelude.{
  if◌then◌else◌, ◌≢◌, ℕ, ◌-◌, ◌≡◌, ◌≤◌, ◌↔◌, refl, true, false, Option, some, none, List, [], ◌∷◌,
  arith, Bytes, bytes_equal, ◌==◌, ok, length,
}
use drand.Prelude.Int.{ℤ, pos, negsuc, ◌-ℤ◌}
use drand.Key.Suite.{Suite}
use drand.Key.Identity.{Identity, Pair}
use drand.Key.Node.{Node}
use drand.Key.Group.{Group, minimum_t, group_hash, get_genesis_seed}
use drand.Key.Wire.{group_from_proto, group_to_proto}
use drand.Key.Wire.RoundTrip.{IsSendable, group_from_proto-group_to_proto}
use drand.Core.Setup.{SetupInfoPacket, SetupManager, manager_of, new_dkg_setup}
use drand.Core.Setup.Keys.{IsCollecting, add_keys}
use drand.Core.Setup.Begun.{IsBegun, begun_dkg, begun-IsCollecting}
use drand.Chain.Time.{next_round, periods_in, whole_seconds}
use drand.Prelude.Words.{sub_int64, add_int64}
use drand.Prelude.Int.{ltb_ℤ, ◌+ℤ◌}
use drand.Core.Setup.{created_group}
use drand.Core.Daemon.Reshare.{validate_group_transition, check_leader_group}
use drand.Core.Daemon.Reshare.Accepted.{reshared, reshared-accepted}
use drand.Core.Push.{PushEvent, replied, succeeded, node_union, push_group}
use drand.Core.Push.Counts.{acknowledged, is_complete, counted, push_group_iff}

-- Keys are numbers that stand for themselves, hashes are what they hash, and every signature verifies.
abbrev unmarshal_one : Bytes → Option ℕ
unmarshal_one [] = none
unmarshal_one (x ∷ xs) = some x

-- Durations are written as a sign and a number.
abbrev code : ℤ → Bytes
code (pos n) = 0 ∷ n ∷ []
code (negsuc n) = 1 ∷ n ∷ []

abbrev uncode : Bytes → Option ℤ
uncode [] = none
uncode (s ∷ []) = none
uncode (s ∷ n ∷ rest) = if s == 0 then some (pos n) else some (negsuc n)

pub uncode-code : (d : ℤ) → uncode (code d) ≡ some d
uncode-code (pos n) = refl
uncode-code (negsuc n) = refl

pub code-nonempty : (d : ℤ) → code d ≢ []
code-nonempty (pos n) = λ e. cc
code-nonempty (negsuc n) = λ e. cc

abbrev pub numbers : Suite
numbers = record {
  Point = ℕ;
  Scalar = ℕ;
  same_point = λ a b. a == b;
  marshal = λ p. p ∷ [];
  unmarshal = unmarshal_one;
  marshal_scalar = λ p. p ∷ [];
  unmarshal_scalar = unmarshal_one;
  public_of = λ s. s;
  blake2b = λ b. b;
  auth_verify = λ p m s. true;
  auth_sign = λ x m. m;
  hex_encode = λ b. b;
  hex_decode = λ b. some b;
  is_host_port = λ b. true;
  unmarshal-marshal = λ p. refl;
  unmarshal-marshal_scalar = λ s. refl;
  hex_decode-hex_encode = λ b. refl;
  hex_encode-empty = refl;
  duration_string = code;
  parse_duration = uncode;
  parse_duration-duration_string = uncode-code;
  duration_string-nonempty = code-nonempty;
}

abbrev pub leader : Identity numbers
leader = record { key = 11; addr = 1 ∷ []; tls = false; signature = [] }

abbrev pub joiner : Identity numbers
joiner = record { key = 12; addr = 2 ∷ []; tls = true; signature = [] }

abbrev pub leader_pair : Pair numbers
leader_pair = record { key = 11; public = leader }

abbrev pub joiner_pair : Pair numbers
joiner_pair = record { key = 12; public = joiner }

abbrev setup_info : SetupInfoPacket
setup_info = record { nodes = 2; threshold = 2; timeout = 10; beacon_offset = 10; secret = 7 ∷ [] }

abbrev manager : SetupManager numbers
manager = manager_of numbers (λ b. b) leader 30 0 setup_info (2, 2, 10000000000)

manager-IsBegun : IsBegun numbers (λ b. b) setup_info manager
unfolding new_dkg_setup
manager-IsBegun = begun_dkg leader 30 0 refl

begun-IsCollecting_example :
    IsCollecting numbers 2 2 (add_keys numbers manager ((100, leader) ∷ (200, joiner) ∷ []))
begun-IsCollecting_example =
    begun-IsCollecting numbers (λ b. b) setup_info manager ((100, leader) ∷ (200, joiner) ∷ [])
      (omega arith) manager-IsBegun

abbrev two_nodes : List (Node numbers)
two_nodes = record { identity = leader; index = 0 } ∷ record { identity = joiner; index = 1 } ∷ []

abbrev pub pair_group : Group numbers
pair_group = record {
  threshold = 2;
  period = pos 30000000000;
  catchup_period = pos 0;
  nodes = two_nodes;
  genesis_time = pos 1600000000;
  genesis_seed = none;
  transition_time = pos 0;
  public_key = none;
}

pub pair_group-IsSendable : IsSendable numbers pair_group
unfolding minimum_t
pair_group-IsSendable = record {
  addresses = (refl, (refl, tt));
  enough = omega arith;
  small = omega arith;
  whole = (30, omega arith, refl);
  whole_catchup = (0, omega arith, refl);
  some_period = λ e. ground arith;
  genesis = (omega arith, omega arith);
  started = λ e. ground arith;
  transition = (omega arith, omega arith);
  degree = λ d e. cc;
}

group_from_proto-group_to_proto_example :
    group_from_proto numbers (group_to_proto numbers pair_group).0
    ≡ ok (record pair_group { genesis_seed = some (get_genesis_seed numbers pair_group).0 })
group_from_proto-group_to_proto_example =
    group_from_proto-group_to_proto numbers pair_group pair_group-IsSendable

-- The joiner acknowledges.
abbrev one_reply : List PushEvent
one_reply = replied (2 ∷ []) true ∷ []

push_group_iff_example :
    let total = length (node_union numbers [] two_nodes) - 1 in
    let acks = (1 ∷ []) ∷ acknowledged total one_reply in
    ((push_group numbers (λ m. some m) (1 ∷ []) [] two_nodes 0 pair_group [] 10 one_reply).1
      ≡ succeeded)
    ↔ ((is_complete total one_reply ≡ true)
        × (0 ≤ counted numbers [] acks)
        × (2 ≤ counted numbers two_nodes acks))
push_group_iff_example =
    push_group_iff numbers (λ m. some m) (1 ∷ []) [] two_nodes 0 pair_group [] 10 one_reply
      (group_hash numbers pair_group).0 refl

pushed_well :
    (push_group numbers (λ m. some m) (1 ∷ []) [] two_nodes 0 pair_group [] 10 one_reply).1
    ≡ succeeded
unfolding push_group bytes_equal ◌-ℤ◌
pushed_well = refl

-- Two nodes reshare; the leader makes the group 600 seconds after genesis.
abbrev made_at : ℕ
made_at = 1600000600000000000

abbrev next_group : Group numbers
next_group = reshared numbers manager made_at (leader ∷ joiner ∷ []) pair_group

next_group_made :
    (created_group numbers manager made_at (leader ∷ joiner ∷ []) (some pair_group)).0
    ≡ some next_group
unfolding created_group
next_group_made = refl

next_group_ahead : ltb_ℤ next_group.transition_time (pos 1600000610) ≡ false
unfolding next_round periods_in whole_seconds sub_int64 add_int64 ◌-ℤ◌ ◌+ℤ◌ manager_of
next_group_ahead = refl

reshared-accepted_example :
    (validate_group_transition numbers pair_group next_group (pos 1600000610) ≡ ok tt)
    × (check_leader_group numbers pair_group next_group (pos 1600000610) ≡ ok tt)
unfolding manager_of
reshared-accepted_example =
    reshared-accepted numbers manager made_at (leader ∷ joiner ∷ []) pair_group next_group
      (pos 1600000610) refl next_group_made refl next_group_ahead
