-- ===== src/Beacon/Handler/Partials.antt =====
-- chain/beacon/node.go: what a handler lets through to the aggregator and what it sends to others.
use drand.Prelude.{
  leb, ◌&&◌, ℕ, ◌+◌, ◌%◌, ◌^◌, ◌≡◌, ◌≢◌, ◌<◌, ◌≤◌, ◌↔◌, refl, sym, subst, ◌∙◌, Bool, true, false,
  not, Option, none, some, List, [], ◌∷◌, ◌++◌, map, ltb, if◌then◌else◌, Result, ok, err, Bytes,
  bytes_equal, bytes_equal_iff, filter, arith, All, Bool-cases, inl, inr,
}
use drand.Prelude.Int.{ℤ, eq_ℤ}
use drand.Chain.Block.{Beacon, message}
use drand.Chain.Crypto.{Crypto}
use drand.Chain.Time.{next_round}
use drand.Store.{Store, StoreError}
use drand.Beacon.Ticker.{RoundInfo}
use drand.Beacon.Cache.{PartialBeaconPacket}
use drand.Beacon.Aggregator.{CryptoStore, sign_partial}
use drand.Beacon.Handler.{
  invalid_future_round, invalid_partial, Handler, new_valid_partial, process_partial_beacon,
  next_link, broadcast, broadcast_next_partial, tick_upon, tick, appended_beacon, appended,
  wake_first, wake, take_first, take_partial, stop,
}
use drand.Beacon.Handler.Steps.{
  new_partial-crypto, Step, Reach, receives, ticks, appends, wakes, takes, stops, here, then_step,
  IsShare, IsPartial, IsGuarded,
}

module _ {A : Type 0} (P : A → Type 0) where
  All-snoc : (xs : List A) (a : A) → All P xs → P a → All P (xs ++ a ∷ [])
  All-snoc [] a v p = (p, tt)
  All-snoc (x ∷ xs) a v p = (v.0, All-snoc xs a v.1 p)

  All-join : (xs ys : List A) → All P xs → All P ys → All P (xs ++ ys)
  All-join [] ys v w = w
  All-join (x ∷ xs) ys v w = (v.0, All-join xs ys v.1 w)

module _ (S : Store) (k : Crypto) where
  process-IsGuarded :
      (c : CryptoStore k) (h : Handler S k) (now : ℤ) (addr : Bytes) (p : PartialBeaconPacket)
      → IsGuarded S k c h
      → IsGuarded S k c (process_partial_beacon S k h now addr p).0
  unfolding process_partial_beacon new_valid_partial
  process-IsGuarded c h now addr p g =
      let next = (next_round now h.period h.genesis_time).0 in
      elim (Bool-cases (ltb next p.round)) [
        | inl late ↦ rw late g
        | inr timely ↦
            elim (Bool-cases (
              k.verify_partial h.chain.crypto.poly (message k p.round p.previous_sig)
                p.partial_sig)) [
                  | inr bad ↦ rw (timely, bad) g
                  | inl good ↦ elim (Bool-cases (eq_ℤ (k.index_of p.partial_sig) h.index)) [
                    | inl own ↦ rw (timely, good, own) g
                    | inr other ↦
                        rw (timely, good, other)
                          (record {
                            keys = g.keys;
                            queued =
                                All-snoc (IsPartial S k c) h.new_partials (addr, p) g.queued
                                  (subst
                                    (λ (t : CryptoStore k).
                                      k.verify_partial t.poly (message k p.round p.previous_sig)
                                        p.partial_sig
                                      ≡ true)
                                    g.keys good);
                            others = g.others;
                          })
                  ]
                ]
      ]

  to_others :
      (addr : Bytes) (p : PartialBeaconPacket) (ids : List Bytes)
      → All
          (λ (e : Bytes × PartialBeaconPacket). e.0 ≢ addr)
          (map (λ id. (id, p)) (filter (λ id. not (bytes_equal addr id)) ids))
  to_others addr p [] = tt
  to_others addr p (id ∷ ids) = elim (Bool-cases (bytes_equal addr id)) [
    | inl same ↦ rw (same, All) (to_others addr p ids)
    | inr other ↦
        rw (other, All)
          (λ e. let same = (bytes_equal_iff addr id).1 (sym e) in cc, to_others addr p ids)
  ]

  broadcast-IsGuarded :
      (c : CryptoStore k) (h : Handler S k) (link : ℕ × Bytes) (o : Option Bytes)
      → ((sig : Bytes)
          → o ≡ some sig
          → k.verify_partial c.poly (message k link.0 link.1) sig ≡ true)
      → IsGuarded S k c h
      → IsGuarded S k c (broadcast S k h link o)
  unfolding broadcast new_valid_partial
  broadcast-IsGuarded c h link none law g = record {
    keys = g.keys;
    queued = g.queued;
    others = g.others;
  }
  broadcast-IsGuarded c h (round, previous_sig) (some sig) law g =
      let p : PartialBeaconPacket = record {
        round = round;
        previous_sig = previous_sig;
        partial_sig = sig;
      } in
      record {
        keys = g.keys;
        queued = All-snoc (IsPartial S k c) h.new_partials (h.addr, p) g.queued (law sig refl);
        others =
            All-join (λ (e : Bytes × PartialBeaconPacket). e.0 ≢ h.addr) h.sent _ g.others
              (to_others h.addr p h.nodes);
      }

  next_partial-IsGuarded :
      (c : CryptoStore k) (h : Handler S k) (current : RoundInfo) (upon : Beacon)
      → IsShare S k c
      → IsGuarded S k c h
      → IsGuarded S k c (broadcast_next_partial S k h current upon)
  unfolding broadcast_next_partial sign_partial
  next_partial-IsGuarded c h current upon law g =
      let link = next_link S k current upon in
      broadcast-IsGuarded c h link (k.sign h.chain.crypto.share (message k link.0 link.1))
        (λ sig e. law (message k link.0 link.1) sig (
          subst (λ (t : CryptoStore k). k.sign t.share (message k link.0 link.1) ≡ some sig) g.keys
            e))
        g

  tick_upon-IsGuarded :
      (c : CryptoStore k) (h : Handler S k) (info : RoundInfo) (r : Result StoreError Beacon)
      → IsShare S k c
      → IsGuarded S k c h
      → IsGuarded S k c (tick_upon S k h info r)
  unfolding tick_upon
  tick_upon-IsGuarded c h info (err e) law g = g
  tick_upon-IsGuarded c h info (ok last) law g =
      let g' = next_partial-IsGuarded c h info last law g in
      elim (Bool-cases (ltb ((last.round + 1) % 2 ^ 64) info.round)) [
        | inl behind ↦ rw behind (record { keys = g'.keys; queued = g'.queued; others = g'.others })
        | inr near ↦ rw near g'
      ]

  appended-IsGuarded :
      (c : CryptoStore k) (h : Handler S k) (o : Option Beacon)
      → IsGuarded S k c h
      → IsGuarded S k c (appended_beacon S k h o)
  unfolding appended_beacon
  appended-IsGuarded c h none g = g
  appended-IsGuarded c h (some b) g = elim (Bool-cases (ltb b.round h.current.round)) [
    | inl late ↦ rw late (record { keys = g.keys; queued = g.queued; others = g.others })
    | inr near ↦ rw near (record { keys = g.keys; queued = g.queued; others = g.others })
  ]

  wake-IsGuarded :
      (c : CryptoStore k) (h : Handler S k) (l : List (RoundInfo × Beacon))
      → IsShare S k c
      → IsGuarded S k c h
      → IsGuarded S k c (wake_first S k h l)
  unfolding wake_first
  wake-IsGuarded c h [] law g = g
  wake-IsGuarded c h ((info, latest) ∷ rest) law g =
      next_partial-IsGuarded c (record h { sleeping = rest }) info latest law
        (record { keys = g.keys; queued = g.queued; others = g.others })

  take-IsGuarded :
      (c : CryptoStore k) (h : Handler S k) (l : List (Bytes × PartialBeaconPacket))
      → All (IsPartial S k c) l
      → IsGuarded S k c h
      → IsGuarded S k c (take_first S k h l)
  unfolding take_first
  take-IsGuarded c h [] v g = g
  take-IsGuarded c h ((addr, p) ∷ rest) v g = record {
    keys = new_partial-crypto S k h.chain p ∙ g.keys;
    queued = v.1;
    others = g.others;
  }

  stop-IsGuarded :
      (c : CryptoStore k) (h : Handler S k) (b : Bool)
      → IsGuarded S k c h
      → IsGuarded S k c (if b then h else record h { stopped = true })
  stop-IsGuarded c h true g = g
  stop-IsGuarded c h false g = record { keys = g.keys; queued = g.queued; others = g.others }

  Step-IsGuarded :
      (c : CryptoStore k) (m h' : Handler S k)
      → IsShare S k c
      → IsGuarded S k c m
      → Step S k m h'
      → IsGuarded S k c h'
  unfolding tick appended wake take_partial stop
  Step-IsGuarded c m h' law g (receives now addr p) = process-IsGuarded c m now addr p g
  Step-IsGuarded c m h' law g (ticks info) =
      tick_upon-IsGuarded c (record m { current = info }) info (S.last m.chain.store.inner.store)
        law (record { keys = g.keys; queued = g.queued; others = g.others })
  Step-IsGuarded c m h' law g appends = appended-IsGuarded c m m.chain.catchup_beacons g
  Step-IsGuarded c m h' law g wakes = wake-IsGuarded c m m.sleeping law g
  Step-IsGuarded c m h' law g takes = take-IsGuarded c m m.new_partials g.queued g
  Step-IsGuarded c m h' law g stops = stop-IsGuarded c m m.stopped g

  -- As long as the node keeps its share and group, the share making valid partials, whatever packets
  -- arrive and however the loops interleave: every partial that waits for the aggregator verifies, and
  -- no partial was sent to the node itself.
  pub Reach-IsGuarded :
      (c : CryptoStore k) (h h' : Handler S k)
      → IsShare S k c
      → IsGuarded S k c h
      → Reach S k h h'
      → IsGuarded S k c h'
  Reach-IsGuarded c h h' law g here = g
  Reach-IsGuarded c h h' law g (then_step {h' = m} run step) =
      Step-IsGuarded c m h' law (Reach-IsGuarded c h m law g run) step

  -- The answer to a packet: an error for a round after the next one, an error for a partial of a round
  -- up to the next that does not verify, and otherwise none; then it waits for the aggregator unless
  -- it was made with the node's own share. Nothing else changes the handler.
  pub process_partial_beacon_cases :
      (h : Handler S k) (now : ℤ) (addr : Bytes) (p : PartialBeaconPacket)
      → let next = (next_round now h.period h.genesis_time).0 in
        let good =
          k.verify_partial h.chain.crypto.poly (message k p.round p.previous_sig) p.partial_sig in
        let (h', answer) = process_partial_beacon S k h now addr p in
        ((answer ≡ some invalid_future_round) ↔ (next < p.round))
        × ((answer ≡ some invalid_partial) ↔ ((p.round ≤ next) × (good ≡ false)))
        × (h' ≡ (
            if leb p.round next && good && not (eq_ℤ (k.index_of p.partial_sig) h.index)
            then new_valid_partial S k h addr p
            else h))
  unfolding process_partial_beacon
  process_partial_beacon_cases h now addr p = (
    (λ e. ground arith, λ e. ground arith),
    (λ e. (ground arith, ground arith), λ e. ground arith),
    ground arith,
  )
