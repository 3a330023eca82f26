-- ===== src/Boltdb/Laws.antt =====
-- chain/boltdb/store.go: the bolt store keeps the promise of chain.Store.
use drand.Prelude.{
  ℕ, ◌<◌, ◌≡◌, refl, sym, ap, ◌∙◌, subst, false, Option, none, some, inl, inr, arith, ◌==◌, ltb,
  Bytes, get_last?, if◌then◌else◌, ok, bytes_equal, bytes_equal_iff, bytes_equal_refl, Bool-cases,
  Option-cases,
}
use drand.Prelude.Assoc.{bytes_eq, All-lookup}
use drand.Chain.Encoding.{
  round_to_bytes, lt_bytes, lt_bytes-round_to_bytes, round_to_bytes-injective,
}
use drand.Chain.Block.{Beacon}
use drand.Store.{IsRound, Store}
use drand.Boltdb.{Bucket, Json, put, get, last, put_marshalled, decode, value}
use drand.Boltdb.Entries.{lookup-none, lookup-last, last_greatest, or_storage-eq-ok}

module _ (bolt : Bucket) (json : Json) where
  -- What an entry holds: a beacon, under its round.
  abbrev Holds : Bytes → Bytes → Beacon → Type 0
  Holds k v b = (json.unmarshal v ≡ some b) × (k ≡ round_to_bytes b.round) × IsRound b.round

  abbrev pub IsValid : bolt.Db → Type 0
  IsValid db = (k v : Bytes) → bolt.get db k ≡ some v → (b : Beacon) × Holds k v b

  put_marshalled-inv :
      (db : bolt.Db) (key : Bytes) (o : Option Bytes) {db' : bolt.Db}
      → put_marshalled bolt json db key o ≡ ok db'
      → (v : Bytes) × (o ≡ some v) × (bolt.put db key v ≡ some db')
  unfolding put_marshalled
  put_marshalled-inv db key none h = cc
  put_marshalled-inv db key (some v) h = (v, refl, or_storage-eq-ok (bolt.put db key v) h)

  put-inv :
      (db db' : bolt.Db) (b : Beacon)
      → put bolt json db b ≡ ok db'
      → (v : Bytes) × (json.unmarshal v ≡ some b)
        × (bolt.put db (round_to_bytes b.round) v ≡ some db')
  unfolding put
  put-inv db db' b h =
      let (v, marshalled, stored) =
        put_marshalled-inv db (round_to_bytes b.round) (json.marshal b) h in
      (v, json.unmarshal-marshal b v marshalled, stored)

  pub put-IsValid :
      (db db' : bolt.Db) (b : Beacon)
      → IsValid db
      → IsRound b.round
      → put bolt json db b ≡ ok db'
      → IsValid db'
  put-IsValid db db' b valid small h k v found =
      let (w, decoded, stored) = put-inv db db' b h in
      let key = round_to_bytes b.round in
      let read = bolt.get-put db db' key w k stored in
      elim (Bool-cases (bytes_equal key k)) [
        | inl same ↦
            let eq : w ≡ v = ground arith in
            (
              b,
              (
                subst (λ t. json.unmarshal t ≡ some b) eq decoded,
                sym ((bytes_equal_iff key k).0 same),
                small,
              ),
            )
        | inr other ↦ valid k v (ground arith)
      ]

  -- After a successful Put the round reads as that beacon, and every other round as before.
  pub get-put :
      (db db' : bolt.Db) (b : Beacon) (r : ℕ)
      → IsRound b.round
      → IsRound r
      → put bolt json db b ≡ ok db'
      → get bolt json db' r ≡ (if b.round == r then ok b else get bolt json db r)
  unfolding get decode
  get-put db db' b r small small' h =
      let (w, decoded, stored) = put-inv db db' b h in
      let key = round_to_bytes b.round in
      ground (
        arith,
        bolt.get-put db db' key w (round_to_bytes r) stored,
        bytes_equal_iff key (round_to_bytes r),
        round_to_bytes-injective b.round r small small',
        ap round_to_bytes {x = b.round} {y = r},
      )

  decode-value_inv :
      (o : Option (Bytes × Bytes)) {l : Beacon}
      → decode bolt json (value bolt json o) ≡ ok l
      → (k v : Bytes) × (o ≡ some (k, v)) × (json.unmarshal v ≡ some l)
  unfolding decode
  decode-value_inv none h = cc
  decode-value_inv (some (k, v)) h = (k, v, refl, or_storage-eq-ok (json.unmarshal v) h)

  -- What a successful Last has found: the last entry, under the round of its beacon.
  last-inv :
      (db : bolt.Db) (l : Beacon)
      → IsValid db
      → last bolt json db ≡ ok l
      → (k v : Bytes) × (get_last? (bolt.entries db) ≡ some (k, v))
        × (bolt.get db k ≡ some v)
        × (Holds k v l)
  unfolding last
  last-inv db l valid h =
      let (k, v, at_end, decoded) = decode-value_inv (get_last? (bolt.entries db)) h in
      let found =
        bolt.get-entries db k
        ∙ lookup-last (bolt.entries db) (bolt.entries-IsAscending db) at_end in
      let (b, (decoded', key, small)) = valid k v found in
      let same : b ≡ l = ground arith in
      (k, v, at_end, found, subst (Holds k v) same (decoded', key, small))

  -- No key that is stored comes after the last one.
  pub none_after :
      (db : bolt.Db) (k v j w : Bytes)
      → get_last? (bolt.entries db) ≡ some (k, v)
      → bolt.get db j ≡ some w
      → lt_bytes k j ≡ false
  none_after db k v j w at_end found =
      All-lookup (λ e. lt_bytes k e.0 ≡ false) j (bolt.entries db)
        (last_greatest (bolt.entries db) (bolt.entries-IsAscending db) at_end)
        (sym (bolt.get-entries db j) ∙ found)

  pub get-last :
      (db : bolt.Db) (l : Beacon)
      → IsValid db
      → last bolt json db ≡ ok l
      → IsRound l.round × (get bolt json db l.round ≡ ok l)
  unfolding get decode
  get-last db l valid h =
      let (k, v, at_end, found, (decoded, key, small)) = last-inv db l valid h in
      (small, rw (← key, found) (rw decoded))

  put_found :
      (db db' : bolt.Db) (key w : Bytes) → bolt.put db key w ≡ some db' → bolt.get db' key ≡ some w
  put_found db db' key w stored = bolt.get-put db db' key w key stored ∙ rw (bytes_equal_refl key)

  -- No entry stands at or above a round that is above the last one.
  too_high :
      (db : bolt.Db) (l : Beacon) (r : ℕ) (k v : Bytes)
      → IsValid db
      → IsRound r
      → last bolt json db ≡ ok l
      → l.round < r
      → bolt.get db k ≡ some v
      → lt_bytes k (round_to_bytes r) ≡ false
      → ⊥
  too_high db l r k v valid small before higher found not_below =
      let (b, (decoded, key, small_b)) = valid k v found in
      let (k', v', at_end, found', (decoded', key', small_l)) = last-inv db l valid before in
      let not_after = none_after db k' v' k v at_end found in
      let low : ltb b.round r ≡ false =
        sym (lt_bytes-round_to_bytes b.round r small_b small) ∙ rw key at not_below in
      let high : ltb l.round b.round ≡ false =
        sym (lt_bytes-round_to_bytes l.round b.round small_l small_b)
        ∙ rw (key', key) at not_after in
      ground arith

  -- In a database that holds the stored beacon, the last entry is that beacon, if its round is above
  -- that of the last one before.
  last_is_new :
      (db db' : bolt.Db) (b l : Beacon)
      → IsValid db
      → IsRound b.round
      → put bolt json db b ≡ ok db'
      → last bolt json db ≡ ok l
      → l.round < b.round
      → (k v : Bytes) → get_last? (bolt.entries db') ≡ some (k, v)
      → json.unmarshal v ≡ some b
  last_is_new db db' b l valid small h before higher k v at_end =
      let (w, decoded, stored) = put-inv db db' b h in
      let key = round_to_bytes b.round in
      let found =
        bolt.get-entries db' k
        ∙ lookup-last (bolt.entries db') (bolt.entries-IsAscending db') at_end in
      let read = bolt.get-put db db' key w k stored in
      let not_below = none_after db' k v key w at_end (put_found db db' key w stored) in
      elim (Bool-cases (bytes_equal key k)) [
        | inl same ↦
            let eq : w ≡ v = ground arith in subst (λ t. json.unmarshal t ≡ some b) eq decoded
        | inr other ↦
            absurd (too_high db l b.round k v valid small before higher (ground arith) not_below)
      ]

  -- After a Put of a uint64 round above the last one, Last returns the beacon that was put. Each entry
  -- of the database holds a beacon under the key of its round.
  pub last-put :
      (db db' : bolt.Db) (b l : Beacon)
      → IsValid db
      → IsRound b.round
      → put bolt json db b ≡ ok db'
      → last bolt json db ≡ ok l
      → l.round < b.round
      → last bolt json db' ≡ ok b
  unfolding last decode
  last-put db db' b l valid small h before higher =
      elim (Option-cases (get_last? (bolt.entries db'))) [
        | inl empty ↦
            let (w, decoded, stored) = put-inv db db' b h in
            let key = round_to_bytes b.round in
            let found = put_found db db' key w stored in
            let nothing = bolt.get-entries db' key ∙ lookup-none (bolt.entries db') key empty in cc
        | inr ((k, v), at_end) ↦
            rw at_end (rw (last_is_new db db' b l valid small h before higher k v at_end))
      ]

-- The bolt store as the store of the packages above it.
abbrev pub bolt_store : Bucket → Json → Store
bolt_store bolt json = record {
  State = bolt.Db;
  put = put bolt json;
  last = last bolt json;
  get = get bolt json;
  IsValid = IsValid bolt json;
  put-IsValid = put-IsValid bolt json;
  get-put = λ s s' b r _. get-put bolt json s s' b r;
  last-put =
      λ s s' b l v small h before higher. last-put bolt json s s' b l v small h before higher;
  get-last = get-last bolt json;
}
