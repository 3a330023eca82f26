-- ===== src/Boltdb/Ordered.antt =====
-- chain/boltdb/store.go: the last beacon of the bolt store has the greatest round that is stored.
use drand.Prelude.{
  ℕ, ◌≤◌, ◌≡◌, refl, sym, ◌∙◌, false, Option, none, some, inl, inr, arith, ltb, Bytes, get_last?,
  ok, Option-cases,
}
use drand.Chain.Encoding.{round_to_bytes, lt_bytes-round_to_bytes}
use drand.Chain.Block.{Beacon}
use drand.Store.{IsRound, OrderedStore}
use drand.Boltdb.{Bucket, Json, get, last, decode}
use drand.Boltdb.Entries.{lookup-none, lookup-last, or_storage-eq-ok}
use drand.Boltdb.Laws.{IsValid, none_after, bolt_store}

module _ (bolt : Bucket) (json : Json) where
  decode-inv :
      (o : Option Bytes) {b : Beacon}
      → decode bolt json o ≡ ok b
      → (v : Bytes) × (o ≡ some v) × (json.unmarshal v ≡ some b)
  unfolding decode
  decode-inv none h = cc
  decode-inv (some v) h = (v, refl, or_storage-eq-ok (json.unmarshal v) h)

  pub last_above :
      (db : bolt.Db) (r : ℕ) (b : Beacon)
      → IsValid bolt json db
      → IsRound r
      → get bolt json db r ≡ ok b
      → (l : Beacon) × (last bolt json db ≡ ok l) × (r ≤ l.round)
  unfolding get last decode
  last_above db r b valid small h =
      let key = round_to_bytes r in
      let (v, found, decoded) = decode-inv (bolt.get db key) h in
      elim (Option-cases (get_last? (bolt.entries db))) [
        | inl empty ↦
            let nothing = bolt.get-entries db key ∙ lookup-none (bolt.entries db) key empty in cc
        | inr ((k, w), at_end) ↦
            let at_last =
              bolt.get-entries db k
              ∙ lookup-last (bolt.entries db) (bolt.entries-IsAscending db) at_end in
            let (l, (decoded', key', small')) = valid k w at_last in
            let not_after = none_after bolt json db k w key v at_end found in
            let low : ltb l.round r ≡ false =
              sym (lt_bytes-round_to_bytes l.round r small' small) ∙ rw key' at not_after in
            (l, rw (at_end, decoded') refl, ground arith)
      ]

abbrev pub ordered_bolt_store : Bucket → Json → OrderedStore
ordered_bolt_store bolt json = record {
  base = bolt_store bolt json;
  get-last_above = last_above bolt json;
}
