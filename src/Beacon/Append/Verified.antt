-- ===== src/Beacon/Append/Verified.antt =====
-- chain/beacon/store.go: a chain whose beacons all verify, for the aggregator and the syncer, which both
-- put beacons into one callback store.
use drand.Prelude.{
  ℕ, ◌+◌, ◌^◌, ◌≡◌, ◌<◌, subst, true, ◌==◌, ok, arith, inl, inr, Bool-cases, if◌then◌else◌, ◌++◌,
  map,
}
use drand.Chain.Block.{Beacon, verify_beacon}
use drand.Chain.Crypto.{Crypto}
use drand.Store.{Store, IsRound}
use drand.Beacon.Append.{CallbackStore, put, notify, callback_put}
use drand.Beacon.Append.Linked.{IsCurrent, IsLinked, put-inv, put-IsLinked}

module _ (S : Store) where
  pub callback_put-inv :
      (c c' : CallbackStore S) (b : Beacon)
      → callback_put S c b ≡ ok c'
      → (put S c.inner b ≡ ok c'.inner) × (c'.callbacks ≡ c.callbacks)
  unfolding callback_put notify
  callback_put-inv c c' b h = ground arith

  -- A beacon that the callback store takes is queued once for every registered callback; the genesis
  -- beacon is queued for none.
  pub callback_put-new_job :
      (c c' : CallbackStore S) (b : Beacon)
      → callback_put S c b ≡ ok c'
      → c'.new_job
        ≡ (if b.round == 0 then c.new_job else c.new_job ++ map (λ cb. (cb.0, b)) c.callbacks)
  unfolding callback_put notify
  callback_put-new_job c c' b h = ground arith

module _ (S : Store) (k : Crypto) (pubkey : k.Point) where
  -- Every beacon that is stored, but the genesis one, verifies under the chain's key.
  abbrev pub IsVerified : S.State → Type 0
  IsVerified s =
      (r : ℕ) (b : Beacon) → 0 < r → IsRound r → S.get s r ≡ ok b → verify_beacon k pubkey b ≡ true

  -- The store's last beacon is `top`, the chain is linked up to it, and verifies.
  pub record IsSound (c : CallbackStore S) (top : Beacon) : Type 0 where
    pub current : IsCurrent S c.inner top
    pub linked : IsLinked S c.inner.store top.round
    pub verified : IsVerified c.inner.store

  put-IsVerified :
      (s s' : S.State) (b : Beacon)
      → S.IsValid s
      → IsRound b.round
      → verify_beacon k pubkey b ≡ true
      → S.put s b ≡ ok s'
      → IsVerified s
      → IsVerified s'
  put-IsVerified s s' b valid small good done all r x above small_r found =
      let read = S.get-put s s' b r valid small small_r done in
      elim (Bool-cases (b.round == r)) [
        | inl same ↦
            let this : b ≡ x = ground arith in
            subst (λ t. verify_beacon k pubkey t ≡ true) this good
        | inr other ↦ all r x above small_r (ground arith)
      ]

  -- A verified beacon that the callback store takes is the next of the chain, which stays linked and
  -- verified.
  pub callback_put-IsSound :
      (c c' : CallbackStore S) (b l : Beacon)
      → IsSound c l
      → l.round + 1 < 2 ^ 64
      → verify_beacon k pubkey b ≡ true
      → callback_put S c b ≡ ok c'
      → IsSound c' b × (b.round ≡ l.round + 1)
  callback_put-IsSound c c' b l s room good h =
      let (done, _) = callback_put-inv S c c' b h in
      let (next, _, current, linked) =
        put-IsLinked S c.inner c'.inner l b s.current s.linked room done in
      let (_, _, stored, _) = put-inv S c.inner c'.inner l b s.current.cached done in
      (
        record {
          current = current;
          linked = linked;
          verified =
              put-IsVerified c.inner.store c'.inner.store b s.current.valid (omega arith) good
                stored s.verified;
        },
        next,
      )
