-- ===== src/Store.antt =====
-- chain/store.go: what a store of beacons promises to the packages above it. The bolt database of
-- chain/boltdb keeps the promise (Boltdb); the stores of chain/beacon are built on it.
use drand.Prelude.{ℕ, ◌<◌, ◌≤◌, ◌^◌, ◌≡◌, Result, ok, if◌then◌else◌, ◌==◌}
use drand.Chain.Block.{Beacon}

-- ErrNoBeaconSaved, and any error of the database or the decoding
pub data StoreError : Type 0 where
  no_beacon_saved storage : StoreError

-- Rounds are uint64.
abbrev pub IsRound : ℕ → Type 0
IsRound r = r < 2 ^ 64

pub record Store : Type 1 where
  pub State : Type 0
  pub put : State → Beacon → Result StoreError State
  pub last : State → Result StoreError Beacon
  pub get : State → ℕ → Result StoreError Beacon
  pub IsValid : State → Type 0
  pub put-IsValid :
      (s s' : State) (b : Beacon) → IsValid s → IsRound b.round → put s b ≡ ok s' → IsValid s'
  pub get-put :
      (s s' : State) (b : Beacon) (r : ℕ)
      → IsValid s
      → IsRound b.round
      → IsRound r
      → put s b ≡ ok s'
      → get s' r ≡ (if b.round == r then ok b else get s r)
  pub last-put :
      (s s' : State) (b l : Beacon)
      → IsValid s
      → IsRound b.round
      → put s b ≡ ok s'
      → last s ≡ ok l
      → l.round < b.round
      → last s' ≡ ok b
  pub get-last :
      (s : State) (l : Beacon)
      → IsValid s
      → last s ≡ ok l
      → IsRound l.round × (get s l.round ≡ ok l)

-- A store whose last beacon is the one of the greatest round
pub record OrderedStore : Type 1 where
  pub base : Store
  pub get-last_above :
      (s : base.State) (r : ℕ) (b : Beacon)
      → base.IsValid s
      → IsRound r
      → base.get s r ≡ ok b
      → (l : Beacon) × (base.last s ≡ ok l) × (r ≤ l.round)
