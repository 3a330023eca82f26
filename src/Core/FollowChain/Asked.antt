-- ===== src/Core/FollowChain/Asked.antt =====
-- core/drand_control.go: StartFollowChain follows the chain that it is asked for.
use drand.Prelude.{
  ℕ, ◌≡◌, ◌⊎◌, refl, subst, inl, inr, Bool, true, false, Option, none, some, List, Result, ok, err,
  Bytes, All, bytes_equal, bytes_equal→eq, arith, Bool-cases,
}
use drand.Chain.Block.{Beacon, genesis_beacon}
use drand.Chain.Crypto.{Crypto}
use drand.Chain.Info.{ChainInfo, ChainInfoPacket, info_hash, chain_info_from_peers}
use drand.Store.{Store, StoreError, IsRound}
use drand.Beacon.Sync.{SyncError, follow}
use drand.Key.Suite.{Suite}
use drand.Core.Daemon.{Drand, begin_follow}
use drand.Core.Commands.{followed_info, end_follow}
use drand.Core.FollowChain.{
  FollowError, not_followed, FollowedStore, followed_sync_store, syncer_of, follow_from,
  follow_chain, start_follow_chain,
}
use drand.Core.FollowChain.Verified.{IsExtended, is_done, follow-IsExtended}

module _ (K : Suite) (sha256 : Bytes → Bytes) (S : Store) (k : Crypto)
    (to_point : K.Point → k.Point) {Peer : Type 0} (sync_chain : Peer → ℕ → Option (List Beacon))
    (wire : (n : Peer) (r : ℕ) (bs : List Beacon)
      → sync_chain n r ≡ some bs
      → All (λ (b : Beacon). IsRound b.round) bs) where
  abbrev pub is_ok : Result FollowError (Unit {0}) → Bool
  is_ok (ok x) = true
  is_ok (err e) = false

  -- The database comes from the one where the genesis beacon of `info` was put: each beacon stored there
  -- is stored still, or one that verifies is in its place, and what is new verifies under its key; where
  -- the result is no error, there is one for `up_to`.
  pub record IsFollowed (info : ChainInfo K sha256) (db : S.State) (up_to : ℕ) (f : FollowedStore S)
      (r : Result FollowError (Unit {0})) : Type 0 where
    pub started : S.State
    pub genesis : S.put db (genesis_beacon info.group_hash) ≡ ok started
    pub extended : IsExtended S k (to_point info.public_key) started up_to f (is_ok r)

  -- The database as it was, and an error
  abbrev pub IsKept : S.State → FollowedStore S → Result FollowError (Unit {0}) → Type 0
  IsKept db f r = (f.store ≡ db) × (is_ok r ≡ false)

  done_is_ok :
      (e : Option SyncError)
      → is_done e ≡ is_ok (elim e [ none ↦ ok tt | some x ↦ err (not_followed x) ])
  done_is_ok none = refl
  done_is_ok (some e) = refl

  follow_from-IsFollowed :
      (info : ChainInfo K sha256) (up_to : ℕ) (peers : List Peer) (db s : S.State)
      → S.IsValid db
      → S.put db (genesis_beacon info.group_hash) ≡ ok s
      → let (f, r) = follow_from K sha256 S k to_point sync_chain info up_to peers db (ok s) in
        IsFollowed info db up_to f r
  unfolding follow_from genesis_beacon
  follow_from-IsFollowed info up_to peers db s valid put =
      let from = syncer_of K sha256 S k to_point sync_chain info s in
      let start : IsExtended S k (to_point info.public_key) s up_to from.store false = record {
        valid = S.put-IsValid db s (genesis_beacon info.group_hash) valid (omega arith) put;
        verified = λ r b small found. inl found;
        kept = λ r b small held. inl held;
        reached = λ e. cc;
      } in
      let x = follow-IsExtended S k s sync_chain wire from up_to peers refl start in
      let (syncer, e) = follow (followed_sync_store S) k sync_chain from up_to peers in
      record {
        started = s;
        genesis = put;
        extended =
            subst (IsExtended S k (to_point info.public_key) s up_to syncer.store) (done_is_ok e) x;
      }

  abbrev pub IsOutcome :
      Bytes → S.State → ℕ → FollowedStore S × Result FollowError (Unit {0}) → Type 0
  IsOutcome wanted db up_to t =
      IsKept db t.0 t.1
      ⊎ ((info : ChainInfo K sha256) × (info_hash K sha256 info ≡ wanted)
          × IsFollowed info db up_to t.0 t.1)

  from_genesis-IsOutcome :
      (info : ChainInfo K sha256) (up_to : ℕ) (peers : List Peer) (db : S.State)
      (o : Result StoreError S.State) (wanted : Bytes)
      → S.IsValid db
      → info_hash K sha256 info ≡ wanted
      → S.put db (genesis_beacon info.group_hash) ≡ o
      → IsOutcome wanted db up_to
          (follow_from K sha256 S k to_point sync_chain info up_to peers db o)
  unfolding follow_from
  from_genesis-IsOutcome info up_to peers db (err e) wanted valid same put = inl (refl, refl)
  from_genesis-IsOutcome info up_to peers db (ok s) wanted valid same put =
      inr (info, same, follow_from-IsFollowed info up_to peers db s valid put)

  with_info-IsOutcome :
      (opens : Bool) (info : ChainInfo K sha256) (up_to : ℕ) (peers : List Peer) (db : S.State)
      (wanted : Bytes)
      → S.IsValid db
      → info_hash K sha256 info ≡ wanted
      → IsOutcome wanted db up_to
          (follow_chain K sha256 S k to_point sync_chain opens up_to peers db (ok info))
  unfolding follow_chain
  with_info-IsOutcome false info up_to peers db wanted valid same = inl (refl, refl)
  with_info-IsOutcome true info up_to peers db wanted valid same =
      from_genesis-IsOutcome info up_to peers db (S.put db (genesis_beacon info.group_hash)) wanted
        valid same refl

  follow_chain-IsOutcome :
      (opens : Bool) (up_to : ℕ) (peers : List Peer) (db : S.State)
      (found : Option (ChainInfo K sha256)) (wanted : Bytes)
      → S.IsValid db
      → IsOutcome wanted db up_to (
          follow_chain K sha256 S k to_point sync_chain opens up_to peers db
            (followed_info K sha256 found (some wanted)))
  unfolding follow_chain followed_info
  follow_chain-IsOutcome opens up_to peers db none wanted valid = inl (refl, refl)
  follow_chain-IsOutcome opens up_to peers db (some info) wanted valid =
      elim (Bool-cases (bytes_equal (info_hash K sha256 info) wanted)) [
        | inr other ↦ rw (other, followed_info) (inl (refl, refl))
        | inl same ↦
            rw (same, followed_info)
              (with_info-IsOutcome opens info up_to peers db wanted valid
                (bytes_equal→eq (info_hash K sha256 info) wanted same))
      ]

  -- Following the chain of a hash, while no other is followed, leaves the daemon free to follow again.
  -- Either there is an error and the database is as it was; or some information hashes to it, and the
  -- genesis beacon of the information is put in the database, from where on each beacon stored is kept or
  -- replaced by one that verifies under its key, whatever else is stored verifies too, and one is stored
  -- for the round asked for where there is no error. The database is valid, and the rounds that peers
  -- send are uint64.
  pub start_follow_chain-IsOutcome :
      (d : Drand K) (answers : List (Option ChainInfoPacket)) (wanted : Bytes) (opens : Bool)
      (up_to : ℕ) (peers : List Peer) (db : S.State)
      → d.syncing ≡ false
      → S.IsValid db
      → let t =
          start_follow_chain K sha256 S k to_point sync_chain d answers
            (some wanted)
            opens
            up_to
            peers
            db in
        (t.0.syncing ≡ false) × IsOutcome wanted db up_to (t.1, t.2)
  unfolding start_follow_chain begin_follow end_follow
  start_follow_chain-IsOutcome d answers wanted opens up_to peers db free valid =
      rw (free, start_follow_chain, begin_follow)
        (
          refl,
          follow_chain-IsOutcome opens up_to peers db (chain_info_from_peers K sha256 answers)
              wanted valid,
        )
