-- ===== src/Core/FollowChain/Verified.antt =====
-- core/drand_control.go: what following a chain leaves in the database.
use drand.Prelude.{
  ℕ, ◌+◌, ◌%◌, ◌^◌, ◌≡◌, ◌⊎◌, refl, sym, ◌∙◌, subst, inl, inr, Bool, true, false, Option, none,
  some, List, [], ◌∷◌, ◌==◌, Result, ok, err, All, arith, Bool-cases, Result-cases, Option-cases,
}
use drand.Chain.Block.{Beacon, verify_beacon}
use drand.Chain.Crypto.{Crypto}
use drand.Store.{Store, StoreError, IsRound}
use drand.Beacon.Sync.{SyncError, Syncer, receive, call_node, try_node, try_nodes, follow}
use drand.Core.FollowChain.{FollowedStore, followed_put, followed_sync_store}

-- Follow returns nil.
abbrev pub is_done : Option SyncError → Bool
is_done none = true
is_done (some e) = false

module _ (S : Store) (k : Crypto) (pk : k.Point) (s₀ : S.State) where
  -- A valid database: what it holds is from `s₀` or verifies, and each round that `s₀` holds a beacon of
  -- has that beacon or one that verifies; where the flag is set, a beacon that verifies is stored for
  -- `up_to`.
  pub record IsExtended (up_to : ℕ) (f : FollowedStore S) (done : Bool) : Type 0 where
    pub valid : S.IsValid f.store
    pub verified :
        (r : ℕ) (b : Beacon)
        → IsRound r
        → S.get f.store r ≡ ok b
        → (S.get s₀ r ≡ ok b) ⊎ (verify_beacon k pk b ≡ true)
    pub kept :
        (r : ℕ) (b : Beacon)
        → IsRound r
        → S.get s₀ r ≡ ok b
        → (S.get f.store r ≡ ok b)
          ⊎ ((c : Beacon) × (S.get f.store r ≡ ok c) × (verify_beacon k pk c ≡ true))
    pub reached :
        done ≡ true
        → (b : Beacon) × (S.get f.store up_to ≡ ok b)
          × (b.round ≡ up_to)
          × (verify_beacon k pk b ≡ true)

  abbrev IsWire : List Beacon → Type 0
  IsWire bs = All (λ (b : Beacon). IsRound b.round) bs

  unset :
      (up_to : ℕ) (f : FollowedStore S) (done : Bool)
      → IsExtended up_to f done
      → IsExtended up_to f false
  unset up_to f done x = record {
    valid = x.valid;
    verified = x.verified;
    kept = x.kept;
    reached = λ e. cc;
  }

  put-IsExtended :
      (up_to : ℕ) (f f' : FollowedStore S) (b : Beacon) (done : Bool)
      → IsExtended up_to f done
      → IsRound b.round
      → verify_beacon k pk b ≡ true
      → followed_put S f b ≡ ok f'
      → IsExtended up_to f' (b.round == up_to)
  unfolding followed_put
  put-IsExtended up_to f f' b done x small good h =
      let stored : S.put f.store b ≡ ok f'.store = ground arith in
      let read = λ (r : ℕ) (small_r : IsRound r).
        S.get-put f.store f'.store b r x.valid small small_r stored in
      record {
        valid = S.put-IsValid f.store f'.store b x.valid small stored;
        verified = λ r c small_r found. elim (Bool-cases (b.round == r)) [
          | inl same ↦
              let this : b ≡ c = ground (arith, read r small_r, found) in
              inr (subst (λ t. verify_beacon k pk t ≡ true) this good)
          | inr other ↦ x.verified r c small_r (ground (arith, read r small_r, found))
        ];
        kept = λ r c small_r held. elim (Bool-cases (b.round == r)) [
          | inl same ↦ inr (b, ground (arith, read r small_r), good)
          | inr other ↦
              let unchanged : S.get f'.store r ≡ S.get f.store r = ground (arith, read r small_r) in
              elim (x.kept r c small_r held) [
                | inl still ↦ inl (unchanged ∙ still)
                | inr (v, there, verifies) ↦ inr (v, unchanged ∙ there, verifies)
              ]
        ];
        reached = λ e.
            let same : b.round ≡ up_to = ground arith in
            (
              b,
              subst (λ t. S.get f'.store t ≡ ok b) same (ground (arith, read b.round small)),
              same,
              good,
            );
      }

  receive-IsExtended :
      (up_to : ℕ) (bs : List Beacon) (f : FollowedStore S)
      → IsWire bs
      → IsExtended up_to f false
      → let t = receive (followed_sync_store S) k pk up_to bs f in IsExtended up_to t.0 t.1
  unfolding receive
  receive-IsExtended up_to [] f wire x = x
  receive-IsExtended up_to (b ∷ bs) f wire x = elim (Bool-cases (verify_beacon k pk b)) [
    | inr bad ↦ rw (bad, receive) x
    | inl good ↦
        rw (good, receive)
          (elim (Result-cases (followed_put S f b)) [
            | inr (e, refused) ↦ rw refused x
            | inl (f', taken) ↦
                let x' = put-IsExtended up_to f f' b false x wire.0 good taken in
                rw taken (elim (Bool-cases (b.round == up_to)) [
                  | inl there ↦ rw there (subst (IsExtended up_to f') there x')
                  | inr short ↦
                      rw short (receive-IsExtended up_to bs f' wire.1 (unset up_to f' _ x'))
                ])
          ])
  ]

module _ (S : Store) (k : Crypto) (s₀ : S.State) {Peer : Type 0}
    (sync_chain : Peer → ℕ → Option (List Beacon))
    (wire : (n : Peer) (r : ℕ) (bs : List Beacon)
      → sync_chain n r ≡ some bs
      → All (λ (b : Beacon). IsRound b.round) bs) where
  abbrev IsExtendedBy : k.Point → ℕ → Syncer (followed_sync_store S) k × Bool → Type 0
  IsExtendedBy pk up_to t = IsExtended S k pk s₀ up_to t.0.store t.1 × (t.0.public_key ≡ pk)

  call_node-IsExtended :
      (s : Syncer (followed_sync_store S) k) (up_to : ℕ) (n : Peer) (o : Result StoreError Beacon)
      → IsExtended S k s.public_key s₀ up_to s.store false
      → IsExtendedBy s.public_key up_to (call_node (followed_sync_store S) k sync_chain s up_to n o)
  unfolding call_node
  call_node-IsExtended s up_to n (err e) x = (x, refl)
  call_node-IsExtended s up_to n (ok l) x =
      elim (Option-cases (sync_chain n ((l.round + 1) % 2 ^ 64))) [
        | inl failed ↦ rw (failed, call_node) (x, refl)
        | inr (bs, stream) ↦
            rw (stream, call_node)
              (
                receive-IsExtended S k s.public_key s₀ up_to bs s.store
                    (wire n ((l.round + 1) % 2 ^ 64) bs stream) x,
                refl,
              )
      ]

  try_nodes-IsExtended :
      (s : Syncer (followed_sync_store S) k) (up_to : ℕ) (nodes : List Peer)
      → IsExtended S k s.public_key s₀ up_to s.store false
      → let (s', e) = try_nodes (followed_sync_store S) k sync_chain s up_to nodes in
        IsExtendedBy s.public_key up_to (s', is_done e)
  unfolding try_nodes try_node
  try_nodes-IsExtended s up_to [] x = (x, refl)
  try_nodes-IsExtended s up_to (n ∷ nodes) x =
      let t = try_node (followed_sync_store S) k sync_chain s up_to n in
      let (x', key) = call_node-IsExtended s up_to n (S.last s.store.store) x in
      elim (Bool-cases t.1) [
        | inl done ↦
            rw (done, try_nodes)
              (subst (IsExtended S k s.public_key s₀ up_to t.0.store) done x', key)
        | inr more ↦
            let (x'', key') = try_nodes-IsExtended t.0 up_to nodes (
              subst (λ p. IsExtended S k p s₀ up_to t.0.store false) (sym key)
                (subst (IsExtended S k s.public_key s₀ up_to t.0.store) more x')) in
            let (s', e) = try_nodes (followed_sync_store S) k sync_chain t.0 up_to nodes in
            rw (more, try_nodes)
              (subst (λ p. IsExtended S k p s₀ up_to s'.store (is_done e)) key x'', key' ∙ key)
      ]

  pub follow-IsExtended :
      (s : Syncer (followed_sync_store S) k) (up_to : ℕ) (nodes : List Peer)
      → s.following ≡ false
      → IsExtended S k s.public_key s₀ up_to s.store false
      → let (s', e) = follow (followed_sync_store S) k sync_chain s up_to nodes in
        IsExtended S k s.public_key s₀ up_to s'.store (is_done e)
  unfolding follow
  follow-IsExtended s up_to nodes free x =
      rw (free, follow) (try_nodes-IsExtended (record s { following = true }) up_to nodes x).0
