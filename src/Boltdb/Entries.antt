-- ===== src/Boltdb/Entries.antt =====
-- chain/boltdb/store.go: ascending entries, their last one, and the order of the keys.
use drand.Prelude.{
  ◌≡◌, refl, subst, true, false, Option, none, some, List, [], ◌∷◌, inl, inr, arith, Bytes, All,
  get_last?, ok, bytes_equal, bytes_equal_iff, Bool-cases,
}
use drand.Prelude.Assoc.{bytes_eq, lookup}
use drand.Chain.Encoding.{lt_bytes}
use drand.Boltdb.{IsAscending, or_storage}

pub lt_bytes_irrefl : (k : Bytes) → lt_bytes k k ≡ false
unfolding lt_bytes
lt_bytes_irrefl [] = refl
lt_bytes_irrefl (x ∷ xs) = ground (arith, lt_bytes_irrefl xs)

pub lt_bytes_asymm : (j k : Bytes) → lt_bytes j k ≡ true → lt_bytes k j ≡ false
unfolding lt_bytes
lt_bytes_asymm [] [] h = cc
lt_bytes_asymm [] (y ∷ ys) h = refl
lt_bytes_asymm (x ∷ xs) [] h = cc
lt_bytes_asymm (x ∷ xs) (y ∷ ys) h = ground (arith, lt_bytes_asymm xs ys)

All-last {ℓ} :
    (P : Bytes × Bytes → Type ℓ) (m : List (Bytes × Bytes)) {e : Bytes × Bytes}
    → All P m
    → get_last? m ≡ some e
    → P e
All-last P [] h l = cc
All-last P (x ∷ []) {e} h l = subst P (cc) h.0
All-last P (x ∷ y ∷ m) h l = All-last P (y ∷ m) h.1 l

pub lookup-none : (m : List (Bytes × Bytes)) (k : Bytes) → get_last? m ≡ none → lookup k m ≡ none
unfolding lookup
lookup-none [] k e = refl
lookup-none (x ∷ []) k e = cc
lookup-none (x ∷ y ∷ m) k e = absurd (some_last y m e)
  where
    some_last : (y : Bytes × Bytes) (m : List (Bytes × Bytes)) → get_last? (y ∷ m) ≡ none → ⊥
    some_last y [] e = cc
    some_last y (z ∷ m) e = some_last z m e

-- The last entry of an ascending list is found under its key, and comes before no other key.
pub lookup-last :
    (m : List (Bytes × Bytes)) {k v : Bytes}
    → IsAscending m
    → get_last? m ≡ some (k, v)
    → lookup k m ≡ some v
unfolding lookup
lookup-last [] a l = cc
lookup-last ((j, w) ∷ []) {k} a l = ground (arith, bytes_equal_iff j k)
lookup-last ((j, w) ∷ y ∷ m) {k} {v} a l =
    let later : lt_bytes j k ≡ true = All-last (λ e. lt_bytes j e.0 ≡ true) (y ∷ m) a.0 l in
    let rest : lookup k (y ∷ m) ≡ some v = lookup-last (y ∷ m) a.1 l in
    elim (Bool-cases (bytes_equal j k)) [
      | inl same ↦
          absurd (apart k (subst (λ t. lt_bytes t k ≡ true) ((bytes_equal_iff j k).0 same) later))
      | inr other ↦ rw other rest
    ]
  where
    apart : (k : Bytes) → lt_bytes k k ≡ true → ⊥
    apart k h = cc (lt_bytes_irrefl k)

pub last_greatest :
    (m : List (Bytes × Bytes)) {k v : Bytes}
    → IsAscending m
    → get_last? m ≡ some (k, v)
    → All (λ e. lt_bytes k e.0 ≡ false) m
last_greatest [] a l = tt
last_greatest ((j, w) ∷ []) {k} a l =
    let same : j ≡ k = ground arith in
    (subst (λ t. lt_bytes t j ≡ false) same (lt_bytes_irrefl j), tt)
last_greatest ((j, w) ∷ y ∷ m) {k} a l = (
  lt_bytes_asymm j k (All-last (λ e. lt_bytes j e.0 ≡ true) (y ∷ m) a.0 l),
  last_greatest (y ∷ m) a.1 l,
)

pub or_storage-eq-ok : {A : Type 0} (o : Option A) {a : A} → or_storage o ≡ ok a → o ≡ some a
or_storage-eq-ok none h = cc
or_storage-eq-ok (some a) h = cc
