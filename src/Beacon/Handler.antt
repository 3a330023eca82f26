-- ===== src/Beacon/Handler.antt =====
-- chain/beacon/node.go: the handler, which takes the partials of other nodes, signs the next round at
-- each tick of the clock, and moves to a new group. The clock's reading is an argument; what is
-- launched as a goroutine or sent is kept in a list, in order.
pub mod Steps
pub mod Partials
pub mod Rounds
use drand.Prelude.{
  ℕ, ◌+◌, ◌-◌, ◌%◌, ◌^◌, Bool, true, false, not, Option, none, some, List, [], ◌∷◌, ◌++◌, map, ltb,
  leb, ◌==◌, if◌then◌else◌, Result, ok, err, Bytes, bytes_equal, filter, length,
}
use drand.Prelude.Int.{ℤ, eq_ℤ, ltb_ℤ}
use drand.Chain.Block.{Beacon, message}
use drand.Chain.Crypto.{Crypto}
use drand.Chain.Time.{next_round, current_round, time_of_round}
use drand.Store.{Store, StoreError}
use drand.Beacon.Ticker.{RoundInfo}
use drand.Beacon.Cache.{PartialBeaconPacket}
use drand.Beacon.Append.{add_callback, remove_callback}
use drand.Beacon.Aggregator.{ChainStore, CryptoStore, sign_partial, set_info, new_partial}

-- The errors that the methods return to their callers
pub data HandlerError : Type 0 where
  invalid_future_round invalid_partial genesis_time_passed stop_in_past : HandlerError

-- The id "transition" of a callback
abbrev pub transition_id : Bytes
transition_id = 116 ∷ 114 ∷ 97 ∷ 110 ∷ 115 ∷ 105 ∷ 116 ∷ 105 ∷ 111 ∷ 110 ∷ []

module _ (S : Store) (k : Crypto) where
  -- What a handler reads of a group and of the share in it
  pub record NewGroup : Type 0 where
    pub poly : k.PubPoly
    pub threshold : ℕ
    pub addresses : List Bytes
    pub share : k.PriShare
    pub share_index : ℤ
    pub transition_time : ℤ

  pub record Handler : Type 0 where
    -- conf.Group: its period, genesis and transition time
    pub period : ℤ
    pub genesis_time : ℤ
    pub transition_time : ℤ
    pub addr : Bytes
    -- crypto.Index(), and the addresses of crypto.GetGroup().Nodes
    pub index : ℤ
    pub nodes : List Bytes
    pub chain : ChainStore S k
    -- the channel newPartials of the chain store
    pub new_partials : List (Bytes × PartialBeaconPacket)
    -- the variable of the loop
    pub current : RoundInfo
    -- the PartialBeacon calls launched
    pub sent : List (Bytes × PartialBeaconPacket)
    -- the goroutines that sleep for the catchup period
    pub sleeping : List (RoundInfo × Beacon)
    -- the loops and the syncs launched; without peers, a sync uses those of the group
    pub runs : List ℤ
    pub run_syncs : List (ℕ × Option (List Bytes))
    -- what the callback "transition" captured
    pub transition : Option (ℕ × NewGroup)
    pub stopped : Bool
    -- log.Fatal was called
    pub fatal : Bool

  -- NewValidPartial of the chain store
  unfoldable pub new_valid_partial : Handler → Bytes → PartialBeaconPacket → Handler
  new_valid_partial h addr p = record h { new_partials = h.new_partials ++ (addr, p) ∷ [] }

  -- ProcessPartialBeacon at the time `now`, for a packet from `addr`
  unfoldable pub process_partial_beacon :
      Handler → ℤ → Bytes → PartialBeaconPacket → Handler × Option HandlerError
  unfolding new_valid_partial
  process_partial_beacon h now addr p =
      let next = (next_round now h.period h.genesis_time).0 in
      if ltb next p.round
      then (h, some invalid_future_round)
      else if not
          (k.verify_partial h.chain.crypto.poly (message k p.round p.previous_sig) p.partial_sig)
      then (h, some invalid_partial)
      else if eq_ℤ (k.index_of p.partial_sig) h.index
      then (h, none)
      else (new_valid_partial h addr p, none)

  -- The round and the previous signature of the partial to broadcast.
  unfoldable pub next_link : RoundInfo → Beacon → ℕ × Bytes
  next_link current upon =
      if current.round == upon.round
      then (current.round, upon.previous_sig)
      else ((upon.round + 1) % 2 ^ 64, upon.signature)

  -- From the signed partial on
  unfoldable pub broadcast : Handler → ℕ × Bytes → Option Bytes → Handler
  unfolding new_valid_partial
  broadcast h link none = record h { fatal = true }
  broadcast h (round, previous_sig) (some curr_sig) =
      let packet =
        let p : PartialBeaconPacket = record {
          round = round;
          previous_sig = previous_sig;
          partial_sig = curr_sig;
        } in
        p in
      let queued = new_valid_partial h h.addr packet in
      record queued {
        sent =
            h.sent ++ map (λ id. (id, packet)) (filter (λ id. not (bytes_equal h.addr id)) h.nodes);
      }

  -- broadcastNextPartial
  unfoldable pub broadcast_next_partial : Handler → RoundInfo → Beacon → Handler
  unfolding broadcast next_link
  broadcast_next_partial h current upon =
      let link = next_link current upon in
      broadcast h link (sign_partial k h.chain.crypto (message k link.0 link.1))

  -- case current = <-chanTick, from the last beacon on
  unfoldable pub tick_upon : Handler → RoundInfo → Result StoreError Beacon → Handler
  tick_upon h current (err e) = h
  tick_upon h current (ok last_beacon) =
      let h' = broadcast_next_partial h current last_beacon in
      if ltb ((last_beacon.round + 1) % 2 ^ 64) current.round
      then record h' { run_syncs = h'.run_syncs ++ (current.round, none) ∷ [] }
      else h'

  -- case current = <-chanTick
  unfoldable pub tick : Handler → RoundInfo → Handler
  unfolding tick_upon
  tick h current =
      tick_upon (record h { current = current }) current (S.last h.chain.store.inner.store)

  -- case b := <-h.chain.AppendedBeaconNoSync(), where a beacon waits
  unfoldable pub appended_beacon : Handler → Option Beacon → Handler
  appended_beacon h none = h
  appended_beacon h (some b) =
      let h' = record h { chain = record h.chain { catchup_beacons = none } } in
      if ltb b.round h.current.round
      then record h' { sleeping = h.sleeping ++ (h.current, b) ∷ [] }
      else h'

  unfoldable pub appended : Handler → Handler
  unfolding appended_beacon
  appended h = appended_beacon h h.chain.catchup_beacons

  -- The first sleeping goroutine goes on.
  unfoldable pub wake_first : Handler → List (RoundInfo × Beacon) → Handler
  wake_first h [] = h
  wake_first h ((c, latest) ∷ rest) = broadcast_next_partial (record h { sleeping = rest }) c latest

  unfoldable pub wake : Handler → Handler
  unfolding wake_first
  wake h = wake_first h h.sleeping

  -- The aggregator takes the next partial from the channel.
  unfoldable pub take_first : Handler → List (Bytes × PartialBeaconPacket) → Handler
  take_first h [] = h
  take_first h ((addr, p) ∷ rest) = record h {
    new_partials = rest;
    chain = new_partial S k h.chain p;
  }

  unfoldable pub take_partial : Handler → Handler
  unfolding take_first
  take_partial h = take_first h h.new_partials

  -- Start
  unfoldable pub start : Handler → ℤ → Handler × Option HandlerError
  start h now =
      if ltb_ℤ h.genesis_time now
      then (h, some genesis_time_passed)
      else (record h { runs = h.runs ++ (next_round now h.period h.genesis_time).1 ∷ [] }, none)

  -- Catchup
  unfoldable pub catchup : Handler → ℤ → Handler
  catchup h now =
      let (n_round, t_time) = next_round now h.period h.genesis_time in
      record h { runs = h.runs ++ t_time ∷ []; run_syncs = h.run_syncs ++ (n_round, none) ∷ [] }

  -- Transition
  unfoldable pub transition_from : Handler → List Bytes → Handler
  transition_from h prev_nodes =
      let t_round = current_round h.transition_time h.period h.genesis_time in
      if not (eq_ℤ (time_of_round h.period h.genesis_time t_round) h.transition_time)
      then record h { fatal = true }
      else record h {
        runs = h.runs ++ h.transition_time ∷ [];
        run_syncs = h.run_syncs ++ ((t_round + 2 ^ 64 - 1) % 2 ^ 64, some prev_nodes) ∷ [];
      }

  -- TransitionNewGroup
  unfoldable pub transition_new_group : Handler → NewGroup → Handler
  transition_new_group h new_group =
      let t_round = current_round new_group.transition_time h.period h.genesis_time in
      if not (eq_ℤ (time_of_round h.period h.genesis_time t_round) new_group.transition_time)
      then record h { fatal = true }
      else record h {
        transition = some ((t_round + 2 ^ 64 - 1) % 2 ^ 64, new_group);
        chain = record h.chain { store = add_callback S h.chain.store transition_id };
      }

  -- The callback "transition", for a stored beacon
  unfoldable pub switch_at : Handler → Beacon → Option (ℕ × NewGroup) → Handler
  switch_at h b none = h
  switch_at h b (some (target_round, g)) = if ltb b.round target_round then h else record h {
    index = g.share_index;
    nodes = g.addresses;
    transition = none;
    chain = record h.chain {
      crypto = set_info k h.chain.crypto g.poly g.threshold (length g.addresses) g.share;
      store = remove_callback S h.chain.store transition_id;
    };
  }

  unfoldable pub on_transition : Handler → Beacon → Handler
  unfolding switch_at
  on_transition h b = switch_at h b h.transition

  -- Stop
  unfoldable pub stop : Handler → Handler
  stop h = if h.stopped then h else record h { stopped = true }

  -- StopAt, which sleeps until the stop time
  unfoldable pub stop_at : Handler → ℤ → ℤ → Handler × Option HandlerError
  unfolding stop
  stop_at h now stop_time =
      if not (ltb_ℤ now stop_time) then (h, some stop_in_past) else (stop h, none)
