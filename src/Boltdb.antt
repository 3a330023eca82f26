-- ===== src/Boltdb.antt =====
-- chain/boltdb/store.go: beacons in a bolt database, under their rounds in big-endian bytes. The
-- database (bbolt) and the JSON encoding (hexjson) are parameters: their documented behaviour is
-- the laws of `Bucket` and `Json`.
pub mod Entries
pub mod Laws
pub mod Ordered
use drand.Prelude.{
  ℕ, zero, suc, ◌+◌, ◌≡◌, Bool, true, false, Option, none, some, List, [], ◌∷◌, Bytes, length, All,
  get_last?, if◌then◌else◌, Result, ok, err, bytes_equal,
}
use drand.Prelude.Assoc.{Eq, bytes_eq, lookup}
use drand.Chain.Encoding.{round_to_bytes, lt_bytes}
use drand.Chain.Block.{Beacon}
use drand.Store.{StoreError, no_beacon_saved, storage}

-- Each key comes before all that follow it, in the order of bytes.Compare.
abbrev pub IsAscending : List (Bytes × Bytes) → Type 0
IsAscending [] = Unit {0}
IsAscending ((k, v) ∷ rest) = All (λ e. lt_bytes k e.0 ≡ true) rest × IsAscending rest

-- The bucket "beacons". `none` is a transaction that failed, which leaves the database as it was; a
-- cursor walks `entries`.
pub record Bucket : Type 1 where
  pub Db : Type 0
  pub put : Db → Bytes → Bytes → Option Db
  pub delete : Db → Bytes → Option Db
  pub get : Db → Bytes → Option Bytes
  pub entries : Db → List (Bytes × Bytes)
  pub entries-IsAscending : (d : Db) → IsAscending (entries d)
  pub get-entries : (d : Db) (k : Bytes) → get d k ≡ lookup k (entries d)
  pub get-put :
      (d d' : Db) (k v j : Bytes)
      → put d k v ≡ some d'
      → get d' j ≡ (if bytes_equal k j then some v else get d j)
  pub get-delete :
      (d d' : Db) (k j : Bytes)
      → delete d k ≡ some d'
      → get d' j ≡ (if bytes_equal k j then none else get d j)

pub record Json : Type 0 where
  pub marshal : Beacon → Option Bytes
  pub unmarshal : Bytes → Option Beacon
  pub unmarshal-marshal : (b : Beacon) (v : Bytes) → marshal b ≡ some v → unmarshal v ≡ some b

abbrev pub or_storage : {A : Type 0} → Option A → Result StoreError A
or_storage none = err storage
or_storage (some a) = ok a

module _ (bolt : Bucket) (json : Json) where
  -- Len
  unfoldable pub len : bolt.Db → ℕ
  len db = length (bolt.entries db)

  -- Put
  unfoldable pub put_marshalled : bolt.Db → Bytes → Option Bytes → Result StoreError bolt.Db
  put_marshalled db key none = err storage
  put_marshalled db key (some buff) = or_storage (bolt.put db key buff)

  unfoldable pub put : bolt.Db → Beacon → Result StoreError bolt.Db
  unfolding put_marshalled
  put db beacon = put_marshalled db (round_to_bytes beacon.round) (json.marshal beacon)

  -- The value that a key or the cursor gave, decoded; nil is ErrNoBeaconSaved.
  unfoldable pub decode : Option Bytes → Result StoreError Beacon
  decode none = err no_beacon_saved
  decode (some v) = or_storage (json.unmarshal v)

  abbrev pub value : Option (Bytes × Bytes) → Option Bytes
  value none = none
  value (some (k, v)) = some v

  -- Last
  unfoldable pub last : bolt.Db → Result StoreError Beacon
  unfolding decode
  last db = decode (value (get_last? (bolt.entries db)))

  -- Get
  unfoldable pub get : bolt.Db → ℕ → Result StoreError Beacon
  unfolding decode
  get db round = decode (bolt.get db (round_to_bytes round))

  -- Del
  unfoldable pub del : bolt.Db → ℕ → Result StoreError bolt.Db
  del db round = or_storage (bolt.delete db (round_to_bytes round))

  -- A cursor is the entries from its position on. A nil beacon ends a walk; it is also what an entry
  -- gives that does not decode.
  abbrev pub Cursor : Type 0
  Cursor = List (Bytes × Bytes)

  unfoldable pub current : Cursor → Option Beacon
  current [] = none
  current ((k, v) ∷ rest) = json.unmarshal v

  -- boltCursor.First
  unfoldable pub first : bolt.Db → Cursor
  first db = bolt.entries db

  -- boltCursor.Next
  unfoldable pub next : Cursor → Cursor
  next [] = []
  next (e ∷ rest) = rest

  -- boltCursor.Seek: the first key that is not below the round's.
  unfoldable pub skip_below : Bytes → List (Bytes × Bytes) → Cursor
  skip_below key [] = []
  skip_below key ((k, v) ∷ rest) = elim (lt_bytes k key) [
    | true ↦ skip_below key rest
    | false ↦ (k, v) ∷ rest
  ]

  unfoldable pub seek : bolt.Db → ℕ → Cursor
  unfolding skip_below
  seek db round = skip_below (round_to_bytes round) (bolt.entries db)

  -- for bb := c.Seek(from); bb != nil; bb = c.Next(): the beacons that the walk visits.
  unfoldable pub walk : Cursor → List Beacon
  walk [] = []
  walk ((k, v) ∷ rest) =
      let later = walk rest in elim (json.unmarshal v) [ none ↦ [] | some b ↦ b ∷ later ]
