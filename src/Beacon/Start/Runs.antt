-- ===== src/Beacon/Start/Runs.antt =====
-- chain/beacon/node.go, chain.go, sync.go: a handler from NewHandler on, with its aggregator and its
-- syncer, in any order of their steps.
use drand.Prelude.{
  ℕ, ◌+◌, ◌^◌, ◌≡◌, ◌<◌, ◌≤◌, ◌⊎◌, refl, sym, ◌∙◌, ap, subst, inl, inr, none, some, Option, List,
  [], ◌∷◌, ok, err, Bytes, arith, Result, length,
}
use drand.Prelude.Int.{ℤ}
use drand.Chain.Block.{Beacon}
use drand.Chain.Crypto.{Crypto}
use drand.Store.{Store, StoreError}
use drand.Beacon.Ticker.{RoundInfo}
use drand.Beacon.Cache.{PartialBeaconPacket}
use drand.Beacon.Append.{CallbackStore}
use drand.Beacon.Append.Verified.{IsSound}
use drand.Beacon.Aggregator.{ChainStore, CryptoStore, beacon_stored, new_partial}
use drand.Beacon.Aggregator.Soundness.{new_partial-IsSound}
use drand.Beacon.Sync.{chain_sync_store, receive}
use drand.Beacon.Sync.Follow.{receive-Reached}
use drand.Beacon.Handler.{
  Handler, process_partial_beacon, new_valid_partial, broadcast, broadcast_next_partial, tick_upon,
  tick, appended_beacon, appended, wake_first, wake, take_first, take_partial, stop,
}
use drand.Beacon.Handler.Steps.{
  Step, receives, ticks, appends, wakes, takes, stops, new_partial-crypto,
}

module _ (S : Store) (k : Crypto) where
  -- The steps of a handler, the beacons that the aggregator hears of, and the streams of the syncer; the
  -- number is how many beacons they can add.
  pub data Run (h : Handler S k) : ℕ → Handler S k → Type 0 where
    begins : Run h 0 h
    steps : {n : ℕ} {m m' : Handler S k} → Run h n m → Step S k m m' → Run h (n + 1) m'
    hears :
        {n : ℕ} {m : Handler S k}
        → Run h n m
        → (b : Beacon) → Run h n (record m { chain = beacon_stored S k m.chain b })
    syncs :
        {n : ℕ} {m : Handler S k}
        → Run h n m
        → (up_to : ℕ) (bs : List Beacon)
        → Run h (n + length bs) (record m {
          chain = record m.chain {
            store =
                (receive (chain_sync_store S) k m.chain.crypto.public_key up_to bs m.chain.store).0;
          };
        })

  -- What a step leaves of the keys and the store, or what the aggregator makes of a partial
  abbrev Kept : Handler S k → Handler S k → Type 0
  Kept m m' =
      ((m'.chain.store ≡ m.chain.store) × (m'.chain.crypto ≡ m.chain.crypto))
      ⊎ ((p : PartialBeaconPacket) × (m'.chain ≡ new_partial S k m.chain p))

  process-Kept :
      (m : Handler S k) (now : ℤ) (addr : Bytes) (p : PartialBeaconPacket)
      → (process_partial_beacon S k m now addr p).0.chain ≡ m.chain
  unfolding process_partial_beacon new_valid_partial
  process-Kept m now addr p = ground arith

  broadcast-Kept :
      (m : Handler S k) (link : ℕ × Bytes) (o : Option Bytes)
      → (broadcast S k m link o).chain ≡ m.chain
  unfolding broadcast new_valid_partial
  broadcast-Kept m link none = refl
  broadcast-Kept m link (some sig) = refl

  next_partial-Kept :
      (m : Handler S k) (info : RoundInfo) (b : Beacon)
      → (broadcast_next_partial S k m info b).chain ≡ m.chain
  unfolding broadcast_next_partial
  next_partial-Kept m info b = broadcast-Kept m _ _

  tick-Kept :
      (m : Handler S k) (info : RoundInfo) (r : Result StoreError Beacon)
      → (tick_upon S k m info r).chain ≡ m.chain
  unfolding tick_upon
  tick-Kept m info (err e) = refl
  tick-Kept m info (ok b) = ground (arith, next_partial-Kept m info b)

  appended-Kept : (m : Handler S k) (o : Option Beacon) → Kept m (appended_beacon S k m o)
  unfolding appended_beacon
  appended-Kept m none = inl (refl, refl)
  appended-Kept m (some b) = inl (ground arith, ground arith)

  wake-Kept :
      (m : Handler S k) (l : List (RoundInfo × Beacon)) → (wake_first S k m l).chain ≡ m.chain
  unfolding wake_first
  wake-Kept m [] = refl
  wake-Kept m ((c, b) ∷ rest) = next_partial-Kept (record m { sleeping = rest }) c b

  take-Kept :
      (m : Handler S k) (l : List (Bytes × PartialBeaconPacket)) → Kept m (take_first S k m l)
  unfolding take_first
  take-Kept m [] = inl (refl, refl)
  take-Kept m ((addr, p) ∷ rest) = inr (p, refl)

  whole : (m m' : Handler S k) → m'.chain ≡ m.chain → Kept m m'
  whole m m' e =
      inl (ap (λ (c : ChainStore S k). c.store) e, ap (λ (c : ChainStore S k). c.crypto) e)

  Step-Kept : (m m' : Handler S k) → Step S k m m' → Kept m m'
  unfolding tick appended wake take_partial stop
  Step-Kept m m' (receives now addr p) = whole m m' (process-Kept m now addr p)
  Step-Kept m m' (ticks info) = whole m m' (tick-Kept (record m { current = info }) info _)
  Step-Kept m m' appends = appended-Kept m m.chain.catchup_beacons
  Step-Kept m m' wakes = whole m m' (wake-Kept m m.sleeping)
  Step-Kept m m' takes = take-Kept m m.new_partials
  Step-Kept m m' stops = whole m m' (ground arith)

  -- A sound chain that has grown by at most `n` beacons, under the keys of `h`
  pub record IsGrown (h : Handler S k) (low n : ℕ) (m : Handler S k) : Type 0 where
    pub top : Beacon
    pub sound : IsSound S k h.chain.crypto.public_key m.chain.store top
    pub not_lost : low ≤ top.round
    pub grown : top.round ≤ low + n
    pub keys : m.chain.crypto ≡ h.chain.crypto

  -- The key of the chain is what the aggregator verifies under.
  abbrev pub IsKeyed : Handler S k → Type 0
  IsKeyed h = k.commit h.chain.crypto.poly ≡ h.chain.crypto.public_key

  Step-IsGrown :
      (h m m' : Handler S k) (low n : ℕ)
      → IsKeyed h
      → low + (n + 1) < 2 ^ 64
      → IsGrown h low n m
      → Kept m m'
      → IsGrown h low (n + 1) m'
  Step-IsGrown h m m' low n keyed room g (inl (store, keys)) = record {
    top = g.top;
    sound =
        subst (λ (c : CallbackStore S). IsSound S k h.chain.crypto.public_key c g.top) (sym store)
          g.sound;
    not_lost = g.not_lost;
    grown = omega (arith, g.grown);
    keys = keys ∙ g.keys;
  }
  Step-IsGrown h m m' low n keyed room g (inr (p, made)) =
      let pk = h.chain.crypto.public_key in
      let same : k.commit m.chain.crypto.poly ≡ pk =
        ap (λ (c : CryptoStore k). k.commit c.poly) g.keys ∙ keyed in
      let (l, sound, low', high) =
        new_partial-IsSound S k m.chain p g.top
          (subst (λ t. IsSound S k t m.chain.store g.top) (sym same) g.sound)
          (omega (arith, g.grown)) in
      record {
        top = l;
        sound =
            subst (λ (c : ChainStore S k). IsSound S k pk c.store l) (sym made)
              (subst (λ t. IsSound S k t (new_partial S k m.chain p).store l) same sound);
        not_lost = omega (arith, g.not_lost);
        grown = omega (arith, g.grown);
        keys =
            ap (λ (c : ChainStore S k). c.crypto) made ∙ new_partial-crypto S k m.chain p ∙ g.keys;
      }

  pub Run-IsGrown :
      (h : Handler S k) (l : Beacon) (n : ℕ) (h' : Handler S k)
      → IsKeyed h
      → IsSound S k h.chain.crypto.public_key h.chain.store l
      → l.round + n < 2 ^ 64
      → Run h n h'
      → IsGrown h l.round n h'
  unfolding beacon_stored
  Run-IsGrown h l n h' keyed sound room begins = record {
    top = l;
    sound = sound;
    not_lost = omega arith;
    grown = omega arith;
    keys = refl;
  }
  Run-IsGrown h l n h' keyed sound room (steps {n = j} {m = m} run step) =
      Step-IsGrown h m h' l.round j keyed room (Run-IsGrown h l j m keyed sound (omega arith) run)
        (Step-Kept m h' step)
  Run-IsGrown h l n h' keyed sound room (hears {n = j} {m = m} run b) =
      let g = Run-IsGrown h l n m keyed sound room run in
      record { top = g.top; sound = g.sound; not_lost = g.not_lost; grown = g.grown; keys = g.keys }
  Run-IsGrown h l n h' keyed sound room (syncs {n = j} {m = m} run up_to bs) =
      let g = Run-IsGrown h l j m keyed sound (omega arith) run in
      let same = ap (λ (c : CryptoStore k). c.public_key) g.keys in
      let (l', sound', low, high, _) =
        receive-Reached S k m.chain.crypto.public_key up_to bs m.chain.store g.top
          (subst (λ t. IsSound S k t m.chain.store g.top) (sym same) g.sound)
          (omega (arith, g.grown)) in
      record {
        top = l';
        sound =
            subst
              (λ t.
                IsSound S k t
                  (receive (chain_sync_store S) k m.chain.crypto.public_key up_to bs
                    m.chain.store).0
                  l')
              same sound';
        not_lost = omega (arith, g.not_lost);
        grown = omega (arith, g.grown);
        keys = g.keys;
      }
