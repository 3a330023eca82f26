-- ===== src/Beacon/Aggregator/Soundness.antt =====
-- chain/beacon/chain.go: when the aggregator stores a beacon, and that the chain stays sound.
use drand.Prelude.{
  ◌+◌, ◌%◌, ◌^◌, ◌≡◌, ◌≤◌, ◌<◌, refl, ◌⊎◌, inl, inr, true, ◌&&◌, Option, none, some, ltb, leb, ◌==◌,
  ok, Bytes, arith, Bool-cases, Result-cases,
}
use drand.Chain.Block.{Beacon, verify_beacon}
use drand.Chain.Crypto.{Crypto}
use drand.Store.{Store}
use drand.Beacon.Cache.{
  PartialBeaconPacket, RoundCache, append, get_round_cache, flush_rounds, len, partials, msg,
}
use drand.Beacon.Append.{callback_put}
use drand.Beacon.Append.Verified.{IsSound, callback_put-IsSound}
use drand.Beacon.Aggregator.{
  ChainStore, try_append, after_append, with_signature, with_round_cache, new_partial,
}

module _ (S : Store) (k : Crypto) where
  abbrev assembled : RoundCache → Bytes → Beacon
  assembled r sig = record { previous_sig = r.prev; round = r.round; signature = sig }

  -- The store took `b` as the beacon after the last one that the aggregator knows.
  pub record Stored (c c' : ChainStore S k) (b : Beacon) : Type 0 where
    pub next : (c.last_beacon.round + 1) % 2 ^ 64 ≡ b.round
    pub taken : callback_put S c.store b ≡ ok c'.store
    pub latest : c'.last_beacon ≡ b

  append_cases :
      (c : ChainStore S k) (b : Beacon)
      → let c' = after_append S k b (try_append S k c c.last_beacon b) in
        (c'.store ≡ c.store) ⊎ Stored c c' b
  unfolding after_append try_append
  append_cases c b = elim (Bool-cases ((c.last_beacon.round + 1) % 2 ^ 64 == b.round)) [
    | inr other ↦ inl (ground arith)
    | inl same ↦ elim (Result-cases (callback_put S c.store b)) [
      | inr (e, refused) ↦ inl (ground arith)
      | inl (s, taken) ↦
          inr (record { next = ground arith; taken = ground arith; latest = ground arith })
    ]
  ]

  -- The partials of `r` recovered to `sig`, which verifies, and the store took the beacon.
  pub record Aggregated (c c' : ChainStore S k) (r : RoundCache) (sig : Bytes) : Type 0 where
    pub enough : c.crypto.threshold ≤ len r
    pub recovered :
        k.recover c.crypto.poly (msg k r) (partials r) c.crypto.threshold c.crypto.size ≡ some sig
    pub good : k.verify_recovered (k.commit c.crypto.poly) (msg k r) sig ≡ true
    pub stored : Stored c c' (assembled r sig)

  with_signature_cases :
      (c : ChainStore S k) (p : PartialBeaconPacket) (r : RoundCache) (o : Option Bytes)
      → let c' = with_signature S k c p r o in
        (c'.store ≡ c.store)
        ⊎ ((sig : Bytes) × (o ≡ some sig)
            × (k.verify_recovered (k.commit c.crypto.poly) (msg k r) sig ≡ true)
            × Stored c c' (assembled r sig))
  unfolding with_signature
  with_signature_cases c p r none = inl refl
  with_signature_cases c p r (some sig) =
      elim (Bool-cases (k.verify_recovered (k.commit c.crypto.poly) (msg k r) sig)) [
        | inr bad ↦ rw (bad, with_signature) (inl refl)
        | inl good ↦
            rw (good, with_signature)
              (elim (append_cases (record c { cache = flush_rounds c.cache p.round })
                (assembled r sig)) [
                  | inl same ↦ inl same
                  | inr st ↦ inr (
                    sig,
                    refl,
                    good,
                    record { next = st.next; taken = st.taken; latest = st.latest },
                  )
                ])
      ]

  with_round_cache_cases :
      (c : ChainStore S k) (p : PartialBeaconPacket) (o : Option RoundCache)
      → let c' = with_round_cache S k c p o in
        (c'.store ≡ c.store)
        ⊎ ((r : RoundCache) × (sig : Bytes) × (o ≡ some r) × Aggregated c c' r sig)
  unfolding with_round_cache
  with_round_cache_cases c p none = inl refl
  with_round_cache_cases c p (some r) = elim (Bool-cases (ltb (len r) c.crypto.threshold)) [
    | inl few ↦ rw (few, with_round_cache) (inl refl)
    | inr enough ↦
        rw (enough, with_round_cache)
          (elim (with_signature_cases c p r
            (k.recover c.crypto.poly (msg k r) (partials r) c.crypto.threshold c.crypto.size)) [
              | inl same ↦ inl same
              | inr (sig, recovered, good, stored) ↦ inr (
                r,
                sig,
                refl,
                record {
                  enough = ground arith;
                  recovered = recovered;
                  good = good;
                  stored = stored;
                },
              )
            ])
  ]

  -- A partial changes the store only if its round is at most four above the last beacon the aggregator
  -- knows, and at least a threshold of partials of that round and previous signature is cached then
  -- with it. The scheme recovers a signature from these, it verifies under the group's key, and the
  -- store takes the beacon made of it, whose round is the next.
  pub new_partial_cases :
      (c : ChainStore S k) (p : PartialBeaconPacket)
      → let c' = new_partial S k c p in
        (c'.store ≡ c.store)
        ⊎ ((r : RoundCache) × (sig : Bytes) × (c.last_beacon.round < p.round)
            × (p.round ≤ (c.last_beacon.round + 4) % 2 ^ 64)
            × (get_round_cache (append k c.cache p) p.round p.previous_sig ≡ some r)
            × Aggregated c c' r sig)
  unfolding new_partial
  new_partial_cases c p =
      elim (Bool-cases
        (ltb c.last_beacon.round p.round && leb p.round ((c.last_beacon.round + 4) % 2 ^ 64))) [
          | inr ignored ↦ rw (ignored, new_partial) (inl refl)
          | inl timely ↦
              rw (timely, new_partial)
                (elim (with_round_cache_cases (record c { cache = append k c.cache p }) p
                  (get_round_cache (append k c.cache p) p.round p.previous_sig)) [
                    | inl same ↦ inl same
                    | inr (r, sig, cached, a) ↦ inr (
                      r,
                      sig,
                      ground arith,
                      ground arith,
                      cached,
                      record {
                        enough = a.enough;
                        recovered = a.recovered;
                        good = a.good;
                        stored = record {
                          next = a.stored.next;
                          taken = a.stored.taken;
                          latest = a.stored.latest;
                        };
                      },
                    )
                  ])
        ]

  -- Under the chain's key, whatever partial arrives, the chain in the store stays linked and verified,
  -- and grows by one beacon at most. Its last round is not the greatest uint64.
  pub new_partial-IsSound :
      (c : ChainStore S k) (p : PartialBeaconPacket) (l : Beacon)
      → IsSound S k (k.commit c.crypto.poly) c.store l
      → l.round + 1 < 2 ^ 64
      → (l' : Beacon) × IsSound S k (k.commit c.crypto.poly) (new_partial S k c p).store l'
        × (l.round ≤ l'.round)
        × (l'.round ≤ l.round + 1)
  unfolding msg verify_beacon
  new_partial-IsSound c p l sound room = elim (new_partial_cases c p) [
    | inl same ↦ (l, rw same sound, omega arith, omega arith)
    | inr (r, sig, _, _, _, a) ↦
        let (sound', next) =
          callback_put-IsSound S k (k.commit c.crypto.poly) c.store (new_partial S k c p).store
            (assembled r sig) l sound room a.good a.stored.taken in
        (assembled r sig, sound', omega arith, omega arith)
  ]
