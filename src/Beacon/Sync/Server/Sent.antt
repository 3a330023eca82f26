-- ===== src/Beacon/Sync/Server/Sent.antt =====
-- chain/beacon/sync.go: which beacons a server sends.
use drand.Prelude.{
  ℕ, zero, suc, ◌^◌, ◌≡◌, ◌≤◌, ◌<◌, refl, sym, subst, Bool, true, false, some, List, [], ◌∷◌, ltb,
  Result, ok, err, Bytes, All, arith, Bool-cases, inl, inr,
}
use drand.Chain.Block.{Beacon}
use drand.Chain.Encoding.{round_to_bytes, lt_bytes, lt_bytes-round_to_bytes}
use drand.Store.{StoreError}
use drand.Boltdb.{Bucket, Json, IsAscending, last, skip_below, seek, walk}
use drand.Beacon.Sync.Server.{send_all, outcome, serve_from, serve_chain}

module _ (P : Beacon → Type 0) where
  send_all-All : (room : ℕ) (bs : List Beacon) → All P bs → All P (send_all room bs).0
  unfolding send_all
  send_all-All room [] v = tt
  send_all-All zero (b ∷ bs) v = tt
  send_all-All (suc room) (b ∷ bs) v = (v.0, send_all-All room bs v.1)

  outcome-All : (t : List Beacon × Bool) → All P t.0 → All P (outcome t).0
  unfolding outcome
  outcome-All (sent, true) v = v
  outcome-All (sent, false) v = v

module _ (bolt : Bucket) (json : Json) where
  -- An entry of the database: a beacon of a uint64 round, under the key of its round
  abbrev pub IsEntry : Bytes × Bytes → Type 0
  IsEntry e =
      (b : Beacon) × (json.unmarshal e.1 ≡ some b)
      × (e.0 ≡ round_to_bytes b.round)
      × (b.round < 2 ^ 64)

  walk-above :
      (r : ℕ) (m : List (Bytes × Bytes))
      → r < 2 ^ 64
      → All IsEntry m
      → All (λ e. lt_bytes (round_to_bytes r) e.0 ≡ true) m
      → All (λ (b : Beacon). r ≤ b.round) (walk bolt json m)
  unfolding walk
  walk-above r [] small v above = tt
  walk-above r ((key, value) ∷ m) small ((b, decoded, keyed, room), v) above =
      let order = lt_bytes-round_to_bytes r b.round small room in
      let higher : lt_bytes (round_to_bytes r) (round_to_bytes b.round) ≡ true =
        subst (λ t. lt_bytes (round_to_bytes r) t ≡ true) keyed above.0 in
      let step : walk bolt json ((key, value) ∷ m) ≡ b ∷ walk bolt json m =
        rw (decoded, walk) refl in
      subst (All (λ (x : Beacon). r ≤ x.round)) (sym step)
        (ground arith, walk-above r m small v above.1)

  walk-from :
      (from : ℕ) (m : List (Bytes × Bytes))
      → from < 2 ^ 64
      → IsAscending m
      → All IsEntry m
      → All
          (λ (b : Beacon). from ≤ b.round)
          (walk bolt json (skip_below bolt json (round_to_bytes from) m))
  unfolding walk skip_below
  walk-from from [] small a v = tt
  walk-from from ((key, value) ∷ m) small a ((b, decoded, keyed, room), v) =
      elim (Bool-cases (lt_bytes key (round_to_bytes from))) [
        | inl below ↦ rw (below, skip_below) (walk-from from m small a.1 v)
        | inr reached ↦
            let order = lt_bytes-round_to_bytes b.round from room small in
            let not_below : lt_bytes (round_to_bytes b.round) (round_to_bytes from) ≡ false =
              subst (λ t. lt_bytes t (round_to_bytes from) ≡ false) keyed reached in
            let enough : from ≤ b.round = ground arith in
            let later =
              walk-above b.round m room v
                (subst (λ t. All (λ (e : Bytes × Bytes). lt_bytes t e.0 ≡ true) m) keyed a.0) in
            let step : walk bolt json
                  (skip_below bolt json (round_to_bytes from) ((key, value) ∷ m))
                ≡ b ∷ walk bolt json m =
              rw (reached, skip_below) (rw (decoded, walk) refl) in
            subst (All (λ (x : Beacon). from ≤ x.round)) (sym step)
              (enough, raise b.round enough (walk bolt json m) later)
      ]
    where
      raise :
          (r : ℕ)
          → from ≤ r
          → (bs : List Beacon) → All (λ (x : Beacon). r ≤ x.round) bs
          → All (λ (x : Beacon). from ≤ x.round) bs
      raise r h [] w = tt
      raise r h (x ∷ bs) w = let this = w.0 in (omega arith, raise r h bs w.1)

  -- Whenever the stream fails, and whatever the server answers, it sends beacons of the round asked for
  -- and later ones alone. The database holds beacons of uint64 rounds under the keys of their rounds.
  pub serve_chain-from :
      (db : bolt.Db) (room from_round : ℕ)
      → from_round < 2 ^ 64
      → All IsEntry (bolt.entries db)
      → All (λ (b : Beacon). from_round ≤ b.round) (serve_chain bolt json db room from_round).0
  unfolding serve_chain seek serve_from
  serve_chain-from db room from_round small v = served (last bolt json db)
    where
      served :
          (o : Result StoreError Beacon)
          → All (λ (b : Beacon). from_round ≤ b.round) (serve_from bolt json db room from_round o).0
      served (err e) = tt
      served (ok l) =
          let visited = walk bolt json (seek bolt json db from_round) in
          elim (Bool-cases (ltb l.round from_round)) [
            | inl none_above ↦ rw (none_above, serve_from) tt
            | inr above ↦
                rw (above, serve_from)
                  (outcome-All (λ (b : Beacon). from_round ≤ b.round) (send_all room visited)
                    (send_all-All (λ (b : Beacon). from_round ≤ b.round) room visited
                      (walk-from from_round (bolt.entries db) small (bolt.entries-IsAscending db)
                        v)))
          ]
