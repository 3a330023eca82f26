-- ===== src/Tests/Bucket.antt =====
-- A bucket that keeps its entries in a sorted list, and an encoding of beacons by a list of them.
use drand.Prelude.{
  ℕ, zero, suc, ◌≡◌, refl, sym, subst, true, false, Option, none, some, List, [], ◌∷◌, ◌++◌,
  if◌then◌else◌, Bytes, bytes_equal, bytes_equal_iff, arith, All, Bool-cases, inl, inr, length,
}
use drand.Prelude.Assoc.{bytes_eq, lookup, delete, lookup-delete, All-delete}
use drand.Chain.Encoding.{lt_bytes}
use drand.Chain.Block.{Beacon}
use drand.Boltdb.{Bucket, Json, IsAscending}

abbrev pub place : Bytes → Bytes → List (Bytes × Bytes) → List (Bytes × Bytes)
place k v [] = (k, v) ∷ []
place k v ((j, w) ∷ m) =
    let rest = place k v m in
    if lt_bytes k j
    then (k, v) ∷ (j, w) ∷ m
    else if bytes_equal k j
    then (k, v) ∷ m
    else (j, w) ∷ rest

lt_bytes_trans : (a b c : Bytes) → lt_bytes a b ≡ true → lt_bytes b c ≡ true → lt_bytes a c ≡ true
unfolding lt_bytes
lt_bytes_trans [] [] [] h k = cc
lt_bytes_trans [] (y ∷ b) [] h k = cc
lt_bytes_trans [] b (z ∷ c) h k = refl
lt_bytes_trans (x ∷ a) [] c h k = cc
lt_bytes_trans (x ∷ a) (y ∷ b) [] h k = cc
lt_bytes_trans (x ∷ a) (y ∷ b) (z ∷ c) h k = ground (arith, lt_bytes_trans a b c)

lt_bytes_total :
    (a b : Bytes) → lt_bytes a b ≡ false → bytes_equal a b ≡ false → lt_bytes b a ≡ true
unfolding lt_bytes bytes_equal
lt_bytes_total [] [] h k = cc
lt_bytes_total [] (y ∷ b) h k = cc
lt_bytes_total (x ∷ a) [] h k = refl
lt_bytes_total (x ∷ a) (y ∷ b) h k = ground (arith, lt_bytes_total a b)

-- All keys that follow are above a key below the first one.
All-above :
    (k j : Bytes) (m : List (Bytes × Bytes))
    → lt_bytes k j ≡ true
    → All (λ e. lt_bytes j e.0 ≡ true) m
    → All (λ e. lt_bytes k e.0 ≡ true) m
All-above k j [] h a = tt
All-above k j ((i, v) ∷ m) h a = (lt_bytes_trans k j i h a.0, All-above k j m h a.1)

All-place :
    (j k v : Bytes) (m : List (Bytes × Bytes))
    → lt_bytes j k ≡ true
    → All (λ e. lt_bytes j e.0 ≡ true) m
    → All (λ e. lt_bytes j e.0 ≡ true) (place k v m)
All-place j k v [] h a = (h, tt)
All-place j k v ((i, w) ∷ m) h a = elim (Bool-cases (lt_bytes k i)) [
  | inl below ↦ rw below (h, a)
  | inr not_below ↦ elim (Bool-cases (bytes_equal k i)) [
    | inl same ↦ rw (not_below, same) (h, a.1)
    | inr other ↦ rw (not_below, other) (a.0, All-place j k v m h a.1)
  ]
]

pub place-IsAscending :
    (k v : Bytes) (m : List (Bytes × Bytes)) → IsAscending m → IsAscending (place k v m)
place-IsAscending k v [] a = (tt, tt)
place-IsAscending k v ((j, w) ∷ m) a = elim (Bool-cases (lt_bytes k j)) [
  | inl below ↦ rw below ((below, All-above k j m below a.0), a)
  | inr not_below ↦ elim (Bool-cases (bytes_equal k j)) [
    | inl same ↦
        let eq = (bytes_equal_iff k j).0 same in
        rw (not_below, same) (subst (λ t. All (λ e. lt_bytes t e.0 ≡ true) m) (sym eq) a.0, a.1)
    | inr other ↦
        rw (not_below, other)
          (All-place j k v m (lt_bytes_total k j not_below other) a.0, place-IsAscending k v m a.1)
  ]
]

pub lookup-place :
    (k v j : Bytes) (m : List (Bytes × Bytes))
    → lookup j (place k v m) ≡ (if bytes_equal k j then some v else lookup j m)
unfolding lookup
lookup-place k v j [] = refl
lookup-place k v j ((i, w) ∷ m) =
    ground
      (arith, bytes_equal_iff k i, bytes_equal_iff k j, bytes_equal_iff i j, lookup-place k v j m)

pub delete-IsAscending :
    (k : Bytes) (m : List (Bytes × Bytes)) → IsAscending m → IsAscending (delete k m)
unfolding delete
delete-IsAscending k [] a = tt
delete-IsAscending k ((j, w) ∷ m) a = elim (Bool-cases (bytes_equal j k)) [
  | inl same ↦ rw same (delete-IsAscending k m a.1)
  | inr other ↦
      rw other (All-delete (λ e. lt_bytes j e.0 ≡ true) k m a.0, delete-IsAscending k m a.1)
]

abbrev pub SortedDb : Type 0
SortedDb = (m : List (Bytes × Bytes)) × IsAscending m

pub unwrapped : (d d' : SortedDb) → some d ≡ some d' → d ≡ d'
unwrapped d d' e = cc

abbrev pub shelf_bucket : Bucket
shelf_bucket = record {
  Db = SortedDb;
  put = λ d k v. some (place k v d.0, place-IsAscending k v d.0 d.1);
  delete = λ d k. some (delete k d.0, delete-IsAscending k d.0 d.1);
  get = λ d k. lookup k d.0;
  entries = λ d. d.0;
  entries-IsAscending = λ d. d.1;
  get-entries = λ d k. refl;
  get-put = λ d d' k v j e.
      subst (λ (t : SortedDb). lookup j t.0 ≡ (if bytes_equal k j then some v else lookup j d.0))
        (unwrapped (place k v d.0, place-IsAscending k v d.0 d.1) d' e) (lookup-place k v j d.0);
  get-delete = λ d d' k j e.
      subst (λ (t : SortedDb). lookup j t.0 ≡ (if bytes_equal k j then none else lookup j d.0))
        (unwrapped (delete k d.0, delete-IsAscending k d.0 d.1) d' e) (lookup-delete k j d.0);
}

-- A beacon as its round, the length of its previous signature, and its two signatures.
abbrev pub encode : Beacon → Bytes
encode b = b.round ∷ length b.previous_sig ∷ (b.previous_sig ++ b.signature)

abbrev pub split : ℕ → Bytes → Bytes × Bytes
split zero xs = ([], xs)
split (suc n) [] = ([], [])
split (suc n) (x ∷ xs) = let (front, back) = split n xs in (x ∷ front, back)

abbrev pub unframe : Bytes → Option Beacon
unframe [] = none
unframe (r ∷ []) = none
unframe (r ∷ n ∷ rest) =
    let (front, back) = split n rest in
    some (record { previous_sig = front; round = r; signature = back })

split-append : (xs ys : Bytes) → split (length xs) (xs ++ ys) ≡ (xs, ys)
split-append [] ys = refl
split-append (x ∷ xs) ys = rw (split-append xs ys)

pub unframe-encode : (b : Beacon) (v : Bytes) → some (encode b) ≡ some v → unframe v ≡ some b
unframe-encode b v e =
    let same : encode b ≡ v = cc in
    subst (λ t. unframe t ≡ some b) same (rw (split-append b.previous_sig b.signature))

abbrev pub framed : Json
framed = record {
  marshal = λ b. some (encode b);
  unmarshal = unframe;
  unmarshal-marshal = unframe-encode;
}
