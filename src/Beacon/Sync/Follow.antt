-- ===== src/Beacon/Sync/Follow.antt =====
-- chain/beacon/sync.go: following keeps the chain sound, and success means that the round is reached.
use drand.Prelude.{
  ◌⊎◌, ℕ, ◌+◌, ◌*◌, ◌%◌, ◌^◌, ◌≡◌, ◌≤◌, ◌<◌, refl, sym, ◌∙◌, subst, inl, inr, Bool, true, false,
  Option, none, some, List, [], ◌∷◌, ◌==◌, Result, ok, err, arith, Bool-cases, Result-cases,
  Option-cases, length,
}
use drand.Chain.Block.{Beacon, verify_beacon}
use drand.Chain.Crypto.{Crypto}
use drand.Store.{Store, StoreError}
use drand.Beacon.Append.{CallbackStore, callback_put}
use drand.Beacon.Append.Verified.{IsSound, callback_put-IsSound}
use drand.Beacon.Sync.{
  SyncError, already_following, chain_sync_store, Syncer, receive, call_node, try_node, try_nodes,
  follow,
}

module _ (S : Store) (k : Crypto) (pk : k.Point) where
  -- A sound store with a last beacon from `low` to `high`, and, where the flag is set, of round `up_to`.
  abbrev pub Reached : ℕ → ℕ → ℕ → CallbackStore S → Bool → Type 0
  Reached low high up_to c done =
      (l : Beacon) × IsSound S k pk c l
      × (low ≤ l.round)
      × (l.round ≤ high)
      × (done ≡ true → l.round ≡ up_to)

  -- A stream of beacons, whatever they are.
  pub receive-Reached :
      (up_to : ℕ) (bs : List Beacon) (c : CallbackStore S) (l : Beacon)
      → IsSound S k pk c l
      → l.round + length bs < 2 ^ 64
      → let t = receive (chain_sync_store S) k pk up_to bs c in
        Reached l.round (l.round + length bs) up_to t.0 t.1
  unfolding receive
  receive-Reached up_to [] c l s room = (l, s, omega arith, omega arith, λ h. cc)
  receive-Reached up_to (b ∷ bs) c l s room = elim (Bool-cases (verify_beacon k pk b)) [
    | inr bad ↦ rw (bad, receive) (l, s, omega arith, omega arith, λ h. cc)
    | inl good ↦
        rw (good, receive)
          (elim (Result-cases (callback_put S c b)) [
            | inr (e, refused) ↦ rw refused (l, s, omega arith, omega arith, λ h. cc)
            | inl (c', taken) ↦ rw taken (
                let (s', next) = callback_put-IsSound S k pk c c' b l s (omega arith) good taken in
                elim (Bool-cases (b.round == up_to)) [
                  | inl there ↦ rw there (b, s', omega arith, omega arith, λ _. ground arith)
                  | inr short ↦ rw short (
                      let (l', s'', low, high, up) =
                        receive-Reached up_to bs c' b s' (omega arith) in
                      (l', s'', omega arith, omega arith, up))
                ])
          ])
  ]

module _ (S : Store) (k : Crypto) {Peer : Type 0} (sync_chain : Peer → ℕ → Option (List Beacon))
    (m : ℕ)
    (bounded : (n : Peer) (r : ℕ) (bs : List Beacon)
      → sync_chain n r ≡ some bs
      → length bs ≤ m) where
  abbrev IsSoundSyncer : Syncer (chain_sync_store S) k → Beacon → Type 0
  IsSoundSyncer s l = IsSound S k s.public_key s.store l

  call_node-Reached :
      (s : Syncer (chain_sync_store S) k) (up_to : ℕ) (n : Peer) (o : Result StoreError Beacon)
      (l : Beacon)
      → IsSoundSyncer s l
      → l.round + m < 2 ^ 64
      → let t = call_node (chain_sync_store S) k sync_chain s up_to n o in
        Reached S k s.public_key l.round (l.round + m) up_to t.0.store t.1
        × (t.0.public_key ≡ s.public_key)
  unfolding call_node
  call_node-Reached s up_to n (err e) l sound room =
      ((l, sound, omega arith, omega arith, λ h. cc), refl)
  call_node-Reached s up_to n (ok last) l sound room =
      elim (Option-cases (sync_chain n ((last.round + 1) % 2 ^ 64))) [
        | inl failed ↦ rw (failed, call_node) ((l, sound, omega arith, omega arith, λ h. cc), refl)
        | inr (bs, stream) ↦
            let short = bounded n ((last.round + 1) % 2 ^ 64) bs stream in
            rw (stream, call_node)
              (let (l', s', low, high, up) =
                  receive-Reached S k s.public_key up_to bs s.store l sound (omega arith) in
                ((l', s', low, omega arith, up), refl))
      ]

  abbrev pub Followed : ℕ → ℕ → k.Point → Syncer (chain_sync_store S) k × Option SyncError → Type 0
  Followed low up_to pk t =
      (l : Beacon) × IsSound S k pk t.0.store l
      × (low ≤ l.round)
      × (t.1 ≡ none → l.round ≡ up_to)
      × (t.0.public_key ≡ pk)

  try_nodes-Followed :
      (s : Syncer (chain_sync_store S) k) (up_to : ℕ) (nodes : List Peer) (l : Beacon)
      → IsSoundSyncer s l
      → l.round + m * length nodes < 2 ^ 64
      → Followed l.round up_to s.public_key
          (try_nodes (chain_sync_store S) k sync_chain s up_to nodes)
  unfolding try_nodes try_node
  try_nodes-Followed s up_to [] l sound room = (l, sound, omega arith, λ h. cc, refl)
  try_nodes-Followed s up_to (n ∷ nodes) l sound room =
      let t = try_node (chain_sync_store S) k sync_chain s up_to n in
      let ((l', sound', low, high, up), key) =
        call_node-Reached s up_to n (S.last s.store.inner.store) l sound (omega arith) in
      elim (Bool-cases t.1) [
        | inl done ↦ rw (done, try_nodes) (l', sound', low, λ _. up done, key)
        | inr more ↦
            rw (more, try_nodes)
              (let (l'', sound'', low', up', key') =
                  try_nodes-Followed t.0 up_to nodes l'
                    (subst (λ x. IsSound S k x t.0.store l') (sym key) sound') (omega arith) in
                (
                  l'',
                  subst
                      (λ x.
                        IsSound S k x
                          (try_nodes (chain_sync_store S) k sync_chain t.0 up_to nodes).0.store l'')
                      key sound'',
                  omega arith,
                  up',
                  key' ∙ key,
                ))
      ]

  -- Following keeps the chain linked and verified whatever the peers send, never loses rounds, and
  -- clears its flag. It succeeds only with the last stored beacon at the round that was asked for;
  -- where another Follow is running it fails and changes nothing. A stream delivers at most `m` beacons,
  -- and the rounds that all peers together can add stay below 2 ^ 64.
  pub follow-IsSound :
      (s : Syncer (chain_sync_store S) k) (up_to : ℕ) (nodes : List Peer) (l : Beacon)
      → IsSoundSyncer s l
      → l.round + m * length nodes < 2 ^ 64
      → let t = follow (chain_sync_store S) k sync_chain s up_to nodes in
        ((s.following ≡ true) × (t ≡ (s, some already_following)))
        ⊎ ((s.following ≡ false) × (t.0.following ≡ false) × Followed l.round up_to s.public_key t)
  unfolding follow
  follow-IsSound s up_to nodes l sound room =
      let (l', sound', low, up, key) =
        try_nodes-Followed (record s { following = true }) up_to nodes l sound room in
      elim (Bool-cases s.following) [
        | inl busy ↦ inl (busy, rw (busy, follow) refl)
        | inr free ↦
            inr (free, rw (free, follow) refl, rw (free, follow) (l', sound', low, up, key))
      ]
