-- ===== src/Beacon/Handler/Steps.antt =====
-- chain/beacon/node.go: the steps of a handler that keeps its share and group, and what guards its queue.
use drand.Prelude.{◌≡◌, ◌≢◌, true, some, Bytes, arith, All}
use drand.Prelude.Int.{ℤ}
use drand.Chain.Block.{message}
use drand.Chain.Crypto.{Crypto}
use drand.Store.{Store}
use drand.Beacon.Ticker.{RoundInfo}
use drand.Beacon.Cache.{PartialBeaconPacket}
use drand.Beacon.Aggregator.{
  ChainStore, CryptoStore, try_append, after_append, with_signature, with_round_cache, new_partial,
}
use drand.Beacon.Handler.{Handler, process_partial_beacon, tick, appended, wake, take_partial, stop}

module _ (S : Store) (k : Crypto) where
  -- A partial never changes the keys of the aggregator.
  pub new_partial-crypto :
      (c : ChainStore S k) (p : PartialBeaconPacket) → (new_partial S k c p).crypto ≡ c.crypto
  unfolding new_partial with_round_cache with_signature after_append try_append
  new_partial-crypto c p = ground arith

  -- Within an epoch: the steps of a handler that keep its group.
  pub data Step (h : Handler S k) : Handler S k → Type 0 where
    receives :
        (now : ℤ) (addr : Bytes) (p : PartialBeaconPacket)
        → Step h (process_partial_beacon S k h now addr p).0
    ticks : (info : RoundInfo) → Step h (tick S k h info)
    appends : Step h (appended S k h)
    wakes : Step h (wake S k h)
    takes : Step h (take_partial S k h)
    stops : Step h (stop S k h)

  pub data Reach (h : Handler S k) : Handler S k → Type 0 where
    here : Reach h h
    then_step : {h' h'' : Handler S k} → Reach h h' → Step h' h'' → Reach h h''

  -- The share of `c` signs partials that verify under the polynomial of `c`.
  abbrev pub IsShare : CryptoStore k → Type 0
  IsShare c =
      (msg sig : Bytes) → k.sign c.share msg ≡ some sig → k.verify_partial c.poly msg sig ≡ true

  -- A partial that verifies under the polynomial of `c`.
  abbrev pub IsPartial : CryptoStore k → Bytes × PartialBeaconPacket → Type 0
  IsPartial c e =
      k.verify_partial c.poly (message k e.1.round e.1.previous_sig) e.1.partial_sig ≡ true

  -- The handler has the keys `c`, each partial in its queue verifies under them, and none that it sent
  -- went to itself.
  pub record IsGuarded (c : CryptoStore k) (h : Handler S k) : Type 0 where
    pub keys : h.chain.crypto ≡ c
    pub queued : All (IsPartial c) h.new_partials
    pub others : All (λ (e : Bytes × PartialBeaconPacket). e.0 ≢ h.addr) h.sent
