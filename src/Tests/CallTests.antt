-- ===== src/Tests/CallTests.antt =====
-- InitDKG of a leader and of a node that joins, for a group of two.
use drand.Prelude.{
  ℕ, Bool, Option, ◌≡◌, refl, ap, subst, sym, true, false, some, [], ◌∷◌, ◌++◌, bytes_equal,
  bytes_equal_refl, Bytes,
}
use drand.Prelude.Int.{pos, ◌-ℤ◌, ltb_ℤ}
use drand.Prelude.Sorting.{sort_by}
use drand.Chain.Encoding.{lt_bytes}
use drand.Key.Identity.{share_public}
use drand.Key.Group.{Group, find, group_hash, get_genesis_seed, new_group}
use drand.Key.Group.Order.{HasDistinctIndices}
use drand.Prelude.Sorting.Distinct.{IsDistinct-nil, IsDistinct-cons}
use drand.Key.Wire.{group_to_proto}
use drand.Key.Wire.RoundTrip.{IsSendable}
use drand.Core.Setup.{new_dkg_setup}
use drand.Core.Setup.Receiver.{SetupReceiver, from_channel, new_setup_receiver}
use drand.Core.Setup.Receiver.Accepts.{arrived, push_dkg_info-arrived}
use drand.Core.Push.{minute, group_timeout, replied, info_packet, push_group}
use drand.Core.Daemon.{Drand, DkgResult, ready, final_group}
use drand.Core.Daemon.Reshare.{receiver_begin}
use drand.Core.Commands.{new_drand}
use drand.Core.Calls.{
  CallResult, failed, not_pushed, InitDkgPacket, DkgRun, LeaderRun, JoinRun, returned, pushed_group,
  lead_dkg, join_dkg,
}
use drand.Core.Commands.Steps.{IsSame, itself}
use drand.Core.Calls.Unchanged.{is_returned}
use drand.Core.Calls.Led.{IsQuietSetup}
use drand.Core.Calls.Atomic.{call_dkg, perform, perform-IsSame}
use drand.Core.Calls.Finished.{IsFinished}
use drand.Core.Calls.Agreement.{IsLed, IsJoined, lead_dkg-join_dkg}
use drand.Tests.SetupTests.{
  leader_pair, joiner_pair, numbers, leader, joiner, pair_group, pair_group-IsSendable,
}

abbrev sha : Bytes → Bytes
sha b = b

abbrev sign : Bytes → Option Bytes
sign m = some m

abbrev verify : ℕ → Bytes → Bytes → Bool
verify p m s = bytes_equal m s

-- The group of createAndSend, which has its seed
abbrev setup_group : Group numbers
setup_group =
    let keys = joiner ∷ leader ∷ [] in
    (get_genesis_seed numbers
      (new_group numbers keys 2 (pos 1600000000) (pos 30000000000) (pos 0))).1

abbrev seeded_pair : Group numbers
seeded_pair = record pair_group { genesis_seed = some (group_hash numbers pair_group).0 }

setup_pair : setup_group ≡ seeded_pair
unfolding group_hash get_genesis_seed new_group sort_by lt_bytes
setup_pair = refl

setup_sorted : (group_hash numbers setup_group).1 ≡ seeded_pair
unfolding group_hash get_genesis_seed new_group sort_by lt_bytes
setup_sorted = refl

seeded_pair-HasDistinctIndices : HasDistinctIndices numbers seeded_pair
seeded_pair-HasDistinctIndices =
    IsDistinct-cons _ _ _ ((λ e. cc), tt) (IsDistinct-cons _ _ _ tt (IsDistinct-nil _))

seeded_pair-IsSendable : IsSendable numbers seeded_pair
seeded_pair-IsSendable = record {
  addresses = pair_group-IsSendable.addresses;
  enough = pair_group-IsSendable.enough;
  small = pair_group-IsSendable.small;
  whole = pair_group-IsSendable.whole;
  whole_catchup = pair_group-IsSendable.whole_catchup;
  some_period = pair_group-IsSendable.some_period;
  genesis = pair_group-IsSendable.genesis;
  started = pair_group-IsSendable.started;
  transition = pair_group-IsSendable.transition;
  degree = pair_group-IsSendable.degree;
}

setup_sorted-IsSendable : IsSendable numbers (group_hash numbers setup_group).1
setup_sorted-IsSendable = subst (IsSendable numbers) (sym setup_sorted) seeded_pair-IsSendable

abbrev packet : Bool → InitDkgPacket
packet leads = record {
  leader = leads;
  info = record { nodes = 2; threshold = 2; timeout = 10; beacon_offset = 0; secret = 7 ∷ [] };
  beacon_period = 30;
  catchup_period = 0;
}

abbrev lead_run : LeaderRun numbers
lead_run = record {
  id = 1;
  while_waiting = λ d. d;
  after_setup = λ d. d;
  wait = ready setup_group;
  replies = replied (2 ∷ []) true ∷ [];
}

abbrev result_of : ℕ → ℕ → DkgResult numbers
result_of i v = record {
  qual = 0 ∷ 1 ∷ [];
  share = record { commits = 3 ∷ 4 ∷ []; index = i; value = v };
}

-- Another call is refused while the key generation is waited for, and changes nothing.
abbrev run_of : DkgResult numbers → DkgRun numbers
run_of r = record {
  id = 1;
  made = true;
  while_waiting = λ d. d;
  after_wait = λ d. d;
  result = some r;
  saves_share = true;
  saves_group = true;
}

run_of-IsFinished : (r : DkgResult numbers) → IsFinished numbers (run_of r) r
run_of-IsFinished r = record {
  made = refl;
  kept = λ d. refl;
  result = refl;
  saves_share = refl;
  saves_group = refl;
}

abbrev arrived_group : Group numbers
arrived_group = arrived numbers sha verify (group_hash numbers setup_group).1

abbrev join_run : JoinRun numbers
join_run = record {
  id = 1;
  leader_identity = some (record { address = 1 ∷ []; key = 11 ∷ []; tls = false; signature = [] });
  signaled = true;
  while_waiting = λ d. d;
  after_wait = λ d. d;
  after_check = λ d. d;
  at_end = λ d. d;
  receivers = λ r n. record r { ch = r.ch ++ record { group = arrived_group; timeout = 10 } ∷ [] };
  case = from_channel;
  now = pos 1599999990;
}

abbrev fresh_receiver : SetupReceiver numbers
fresh_receiver = record { leader_id = leader; secret = 7 ∷ []; ch = []; done = false }

leader-IsLed :
    IsLed numbers sha sign verify
      (new_drand numbers leader_pair)
      (packet true)
      lead_run
      setup_group
      (group_hash numbers setup_group).0
unfolding new_dkg_setup push_group new_group sort_by lt_bytes bytes_equal ◌-ℤ◌
leader-IsLed = record { manager = _; made = refl; waits = refl; signs = refl; pushes = refl }

signed : verify 11 (group_hash numbers setup_group).0 (group_hash numbers setup_group).0 ≡ true
signed = bytes_equal_refl (group_hash numbers setup_group).0

verified :
    verify 11
      (group_hash numbers (group_hash numbers setup_group).1).0
      (group_hash numbers setup_group).0
    ≡ true
unfolding group_hash new_group sort_by lt_bytes bytes_equal get_genesis_seed
verified = refl

joins_early : ltb_ℤ setup_group.genesis_time (pos 1599999990) ≡ false
unfolding new_group get_genesis_seed
joins_early = refl

joiner_found : find numbers arrived_group joiner ≡ some (record { identity = joiner; index = 1 })
unfolding group_hash new_group sort_by lt_bytes bytes_equal find get_genesis_seed
joiner_found = refl

joiner-IsJoined :
    IsJoined numbers sha sign verify
      (new_drand numbers joiner_pair)
      (packet false)
      join_run
      (info_packet numbers setup_group (7 ∷ []) 10 (group_hash numbers setup_group).0)
      setup_group
      fresh_receiver
unfolding new_setup_receiver info_packet find receiver_begin
joiner-IsJoined = record {
  made = refl;
  signaled = refl;
  kept = refl;
  takes =
      push_dkg_info-arrived numbers sha verify fresh_receiver (group_hash numbers setup_group).1
        (7 ∷ []) (group_hash numbers setup_group).0 10 setup_sorted-IsSendable refl verified;
  case = refl;
  early = joins_early;
  node = record { identity = joiner; index = 1 };
  found = joiner_found;
}

lead_dkg-join_dkg_example :
    let answer =
      returned
        (group_to_proto numbers
          (final_group numbers (pushed_group numbers setup_group) (result_of 0 5))).0 in
    ((lead_dkg numbers sha sign verify
        (new_drand numbers leader_pair)
        (packet true)
        lead_run
        (run_of (result_of 0 5))).1
      ≡ answer)
    × ((join_dkg numbers sha sign verify
          (new_drand numbers joiner_pair)
          (packet false)
          join_run
          (run_of (result_of 1 6))).1
        ≡ answer)
unfolding share_public
lead_dkg-join_dkg_example =
    lead_dkg-join_dkg numbers sha sign verify setup_group (group_hash numbers setup_group).0
      (new_drand numbers leader_pair) (packet true) lead_run (run_of (result_of 0 5))
      (result_of 0 5) (new_drand numbers joiner_pair) (packet false) join_run
      (run_of (result_of 1 6)) (result_of 1 6) fresh_receiver
      (subst (HasDistinctIndices numbers) (sym setup_pair) seeded_pair-HasDistinctIndices)
      setup_sorted-IsSendable leader-IsLed refl signed joiner-IsJoined (run_of-IsFinished _)
      (run_of-IsFinished _) (record { qual = refl; public = refl })

-- A node with a share of an old group leads a setup again, and nobody replies to the push.
abbrev member : Drand numbers
member = record (new_drand numbers leader_pair) {
  share = some (record { commits = 3 ∷ 4 ∷ []; index = 0; value = 5 });
  group = some pair_group;
}

abbrev unheard_run : LeaderRun numbers
unheard_run = record lead_run { replies = minute ∷ [] }

abbrev failed_setup : Drand numbers × CallResult
failed_setup =
    perform numbers sha sign verify member (call_dkg (packet true)) (λ d. d) unheard_run join_run
      (run_of (result_of 0 5))

failed_setup_unheard : failed_setup.1 ≡ failed (not_pushed group_timeout)
unfolding perform new_dkg_setup push_group new_group sort_by lt_bytes bytes_equal ◌-ℤ◌
failed_setup_unheard = refl

failed_setup_gives_none : is_returned failed_setup.1 ≡ false
failed_setup_gives_none = ap is_returned failed_setup_unheard

quiet_setup : IsQuietSetup numbers unheard_run join_run
quiet_setup = record {
  leads = itself numbers;
  pushes = itself numbers;
  joins = itself numbers;
  waits = itself numbers;
  checks = itself numbers;
  ends = itself numbers;
}

perform-IsSame_example : IsSame numbers member failed_setup.0
perform-IsSame_example =
    perform-IsSame numbers sha sign verify member (call_dkg (packet true)) (λ d. d) unheard_run
      join_run (run_of (result_of 0 5)) refl (itself numbers) quiet_setup
      (record {
        waits = itself numbers;
        ends = itself numbers;
        saves_share = refl;
        saves_group = refl;
      })
      failed_setup_gives_none
