-- ===== src/Core/Setup.antt =====
-- core/group_setup.go: the leader collects the keys of the nodes and makes the group of them, for a fresh
-- network or for a resharing. SHA-256 is a parameter. Clock readings are nanoseconds after 1970; the
-- timeout is below 2^31 seconds, where the sum of createAndSend fits an int64.
pub mod Begun
pub mod Keys
pub mod Receiver
use drand.Prelude.{
  ℕ, zero, suc, ◌+◌, ◌-◌, ◌*◌, ◌/◌, ◌%◌, ◌^◌, Bool, true, false, not, ◌||◌, Option, none, some,
  List, [], ◌∷◌, ◌++◌, length, ltb, ◌==◌, if◌then◌else◌, Result, ok, err, Bytes, bytes_equal,
}
use drand.Prelude.Int.{ℤ, pos}
use drand.Chain.Time.{next_round, whole_seconds}
use drand.Key.Suite.{Suite}
use drand.Key.Identity.{KeyError, Identity, valid_signature}
use drand.Key.Group.{Group, minimum_t, new_group, group_hash, get_genesis_seed}
use drand.Key.Wire.{IdentityPacket, identity_from_proto}

pub data SetupError : Type 0 where
  threshold_too_low threshold_too_high wrong_secret inconsistent_hash invalid_id invalid_sig :
      SetupError

-- The fields of drand.SetupInfoPacket that this package reads; times are in seconds.
pub record SetupInfoPacket : Type 0 where
  pub nodes : ℕ
  pub threshold : ℕ
  pub timeout : ℕ
  pub beacon_offset : ℕ
  pub secret : Bytes

pub record SignalDkgPacket : Type 0 where
  pub node : IdentityPacket
  pub secret_proof : Bytes
  pub previous_group_hash : Bytes

pub record InitResharePacket : Type 0 where
  pub info : SetupInfoPacket
  pub catchup_period_changed : Bool
  pub catchup_period : ℕ

abbrev second : ℕ
second = 1000000000

abbrev pub default_genesis_offset : ℕ
default_genesis_offset = second

abbrev pub default_resharing_offset : ℕ
default_resharing_offset = 30 * second

-- validInitPacket: the nodes, the threshold and the timeout
unfoldable pub valid_init_packet : SetupInfoPacket → Result SetupError (ℕ × ℕ × ℕ)
unfolding minimum_t
valid_init_packet p =
    if ltb p.threshold (minimum_t p.nodes)
    then err threshold_too_low
    else if ltb p.nodes p.threshold
    then err threshold_too_high
    else ok (p.nodes, p.threshold, p.timeout * second)

-- The genesis time that createAndSend rounds up: a period's multiple after `at_least`. A zero period
-- panics, and gives none.
unfoldable pub genesis_after : ℕ → ℕ → Option ℕ
genesis_after ps at_least = if ps == 0 then none else some (at_least + (ps - at_least % ps))

module _ (K : Suite) where
  -- setupManager: the channels as lists, and what `run` holds, the keys and whether it still runs. There
  -- is an old group in a resharing.
  pub record SetupManager : Type 0 where
    pub expected : ℕ
    pub thr : ℕ
    pub beacon_offset : ℕ
    pub catchup_period : ℕ
    pub beacon_period : ℕ
    pub dkg_timeout : ℕ
    pub old_group : Option (Group K)
    pub old_hash : Bytes
    pub hashed_secret : Bytes
    pub push_key_ch : List (Bytes × Identity K)
    pub in_keys : List (Identity K)
    pub start_dkg : Option (Group K)
    pub running : Bool

  -- The group of the keys, once there is a genesis time. createAndSend prints it, for which its TOML form
  -- reads the seed, so that the group has its seed, and its nodes by index, when it is sent.
  unfoldable pub group_of : SetupManager → List (Identity K) → Option ℕ → Option (Group K)
  unfolding new_group get_genesis_seed
  group_of s keys none = none
  group_of s keys (some genesis) =
      let group =
        new_group K keys s.thr (pos genesis) (pos s.beacon_period) (pos s.catchup_period) in
      some (get_genesis_seed K group).1

  -- The group of createAndSend at the time `now`, and the old group, which holds its seed then, as does the
  -- group of a resharing before it is printed
  unfoldable pub created_group :
      SetupManager → ℕ → List (Identity K) → Option (Group K) → Option (Group K) × Option (Group K)
  unfolding group_of genesis_after next_round new_group get_genesis_seed
  created_group s now keys none =
      let at_least = (now + (s.dkg_timeout * 3 + s.beacon_offset)) / second in
      (group_of s keys (genesis_after (s.beacon_period / second) at_least), none)
  created_group s now keys (some old) =
      let at_least = (now + (s.dkg_timeout * 3 + s.beacon_offset)) / second in
      let transition = (next_round (pos at_least) (pos s.beacon_period) old.genesis_time).1 in
      let group =
        new_group K keys s.thr old.genesis_time (pos s.beacon_period) (pos s.catchup_period) in
      let (seed, old') = get_genesis_seed K old in
      (some (record group { transition_time = transition; genesis_seed = some seed }), some old')

  -- createAndSend
  unfoldable pub create_and_send : SetupManager → ℕ → List (Identity K) → SetupManager
  unfolding created_group
  create_and_send s now keys =
      let (group, old) = created_group s now keys s.old_group in
      record s { start_dkg = group; old_group = old }

  -- The loop that looks for the address or the key
  unfoldable pub is_found : List (Identity K) → Identity K → Bool
  is_found [] pk = false
  is_found (id ∷ ids) pk =
      if bytes_equal id.addr pk.addr || K.same_point id.key pk.key then true else is_found ids pk

  -- case pk := <-s.pushKeyCh, at the time `now`; verifyKeys always agrees
  unfoldable pub add_key : SetupManager → ℕ → Identity K → SetupManager
  unfolding is_found create_and_send
  add_key s now pk =
      if is_found s.in_keys pk
      then s
      else (let in_keys = s.in_keys ++ pk ∷ [] in
          if length in_keys == s.expected
          then record (create_and_send s now in_keys) { in_keys = in_keys; running = false }
          else record s { in_keys = in_keys })

  unfoldable pub take_key : SetupManager → ℕ → List (Bytes × Identity K) → SetupManager
  unfolding add_key
  take_key s now [] = s
  take_key s now ((addr, pk) ∷ rest) =
      if s.running then add_key (record s { push_key_ch = rest }) now pk else s

  module _ (sha256 : Bytes → Bytes) where
    -- correctSecret; the digests have the same length.
    unfoldable pub correct_secret : Bytes → Bytes → Bool
    correct_secret hashed received = bytes_equal hashed (sha256 received)

    -- newDKGSetup
    unfoldable pub manager_of : Identity K → ℕ → ℕ → SetupInfoPacket → ℕ × ℕ × ℕ → SetupManager
    manager_of leader period catchup p (n, thr, timeout) = record {
      expected = n;
      thr = thr;
      beacon_offset =
          if p.beacon_offset == 0 then default_genesis_offset else p.beacon_offset * second;
      catchup_period = catchup * second;
      beacon_period = period * second;
      dkg_timeout = timeout;
      old_group = none;
      old_hash = [];
      hashed_secret = sha256 p.secret;
      push_key_ch = [];
      in_keys = leader ∷ [];
      start_dkg = none;
      running = true;
    }

    unfoldable pub new_dkg_setup :
        Identity K → ℕ → ℕ → SetupInfoPacket → Result SetupError SetupManager
    unfolding manager_of valid_init_packet
    new_dkg_setup leader period catchup p = elim (valid_init_packet p) [
      | err e ↦ err e
      | ok checked ↦ ok (manager_of leader period catchup p checked)
    ]

    -- newReshareSetup
    unfoldable pub reshare_of :
        Group K
        → InitResharePacket
        → Result SetupError SetupManager
        → Result SetupError SetupManager
    unfolding group_hash
    reshare_of old p (err e) = err e
    reshare_of old p (ok sm) =
        let (hash, old') = group_hash K old in
        let offset = p.info.beacon_offset in
        ok (record sm {
          old_group = some old';
          old_hash = hash;
          beacon_offset = if offset == 0 then default_resharing_offset else offset * second;
        })

    unfoldable pub new_reshare_setup :
        Identity K → Group K → InitResharePacket → Result SetupError SetupManager
    unfolding new_dkg_setup reshare_of whole_seconds
    new_reshare_setup leader old p =
        let catchup =
          if not p.catchup_period_changed
          then whole_seconds old.catchup_period % 2 ^ 32
          else p.catchup_period in
        reshare_of old p (new_dkg_setup leader (whole_seconds old.period % 2 ^ 32) catchup p.info)

    unfoldable pub with_identity :
        SetupManager → Bytes → Result KeyError (Identity K) → Result SetupError SetupManager
    unfolding valid_signature
    with_identity s addr (err e) = err invalid_id
    with_identity s addr (ok id) =
        if not (valid_signature K id)
        then err invalid_sig
        else ok (record s { push_key_ch = s.push_key_ch ++ (addr, id) ∷ [] })

    abbrev pub is_inconsistent : SetupManager → Bytes → Option (Group K) → Bool
    is_inconsistent s hash none = false
    is_inconsistent s hash (some old) = not (bytes_equal s.old_hash hash)

    -- ReceivedKey, from `addr`
    unfoldable pub received_key :
        SetupManager → Bytes → SignalDkgPacket → Result SetupError SetupManager
    unfolding with_identity correct_secret identity_from_proto
    received_key s addr p =
        if not (correct_secret s.hashed_secret p.secret_proof)
        then err wrong_secret
        else if is_inconsistent s p.previous_group_hash s.old_group
        then err inconsistent_hash
        else with_identity s addr (identity_from_proto K p.node)
