-- ===== src/Prelude/Assoc.antt =====
-- Go maps as association lists, over any type of keys with a Boolean equality. A `range` over a map
-- follows the list; the laws speak of what a lookup gives, which no order changes.
use Prim.Native.Nat.{ℕ, ◌≤◌}
use mathlib.Core.Path.{◌≡◌, refl, ◌∙◌, subst₂}
use mathlib.Core.Bool.{Bool, true}
use mathlib.Core.Logic.{◌↔◌, inl, inr}
use mathlib.Core.List.{List, [], ◌∷◌}
use mathlib.Core.Option.{Option, none, some}
use native.Mathlib.Omega.{arith}
use drand.Prelude.Tests.{◌==◌, ==_iff, if◌then◌else◌, Bool-cases}
use drand.Prelude.Int.{ℤ, eq_ℤ, eq_ℤ_iff}
use drand.Prelude.Lists.{length, All}
use drand.Prelude.ByteStrings.{Bytes, bytes_equal, bytes_equal_iff}

pub record Eq {ℓ} (K : Type ℓ) : Type ℓ where
  pub beq : K → K → Bool
  pub beq_iff : (a b : K) → (beq a b ≡ true) ↔ (a ≡ b)

instance abbrev pub nat_eq : Eq ℕ
nat_eq = record { beq = ◌==◌; beq_iff = ==_iff }

instance abbrev pub bytes_eq : Eq Bytes
bytes_eq = record { beq = bytes_equal; beq_iff = bytes_equal_iff }

instance abbrev pub int_eq : Eq ℤ
int_eq = record { beq = eq_ℤ; beq_iff = eq_ℤ_iff }

abbrev pub Assoc : Type 0 → Type 0 → Type 0
Assoc K V = List (K × V)

module _ {K V : Type 0} ⦃e : Eq K⦄ where
  -- v, ok := m[k]
  unfoldable pub lookup : K → Assoc K V → Option V
  lookup k [] = none
  lookup k ((j, v) ∷ m) = if e.beq j k then some v else lookup k m

  -- delete(m, k)
  unfoldable pub delete : K → Assoc K V → Assoc K V
  delete k [] = []
  delete k ((j, v) ∷ m) = let rest = delete k m in if e.beq j k then rest else (j, v) ∷ rest

  -- m[k] = v
  unfoldable pub insert : K → V → Assoc K V → Assoc K V
  unfolding delete
  insert k v m = (k, v) ∷ delete k m

pub beq_refl : {K : Type 0} ⦃e : Eq K⦄ (k : K) → e.beq k k ≡ true
beq_refl ⦃e⦄ k = (e.beq_iff k k).1 refl

module _ {K V : Type 0} ⦃e : Eq K⦄ where
  pub lookup-delete :
      (k j : K) (m : Assoc K V) → lookup j (delete k m) ≡ (if e.beq k j then none else lookup j m)
  unfolding lookup delete
  lookup-delete k j [] = ground arith
  lookup-delete k j ((i, v) ∷ m) =
      ground (arith, e.beq_iff k j, e.beq_iff i k, e.beq_iff i j, beq_refl k, lookup-delete k j m)

  pub lookup-insert :
      (k j : K) (v : V) (m : Assoc K V)
      → lookup j (insert k v m) ≡ (if e.beq k j then some v else lookup j m)
  unfolding insert lookup
  lookup-insert k j v m = ground (arith, lookup-delete k j m)

  pub lookup-insert_self : (k : K) (v : V) (m : Assoc K V) → lookup k (insert k v m) ≡ some v
  lookup-insert_self k v m = lookup-insert k k v m ∙ rw (beq_refl k)

  pub length-delete-le : (k : K) (m : Assoc K V) → length (delete k m) ≤ length m
  unfolding delete
  length-delete-le k [] = omega arith
  length-delete-le k ((i, v) ∷ m) = ground (arith, length-delete-le k m)

  -- A property of every entry passes to what a lookup finds, and outlives a deletion.
  pub All-lookup {ℓ} :
      (P : K × V → Type ℓ) (k : K) (m : Assoc K V) {v : V}
      → All P m
      → lookup k m ≡ some v
      → P (k, v)
  unfolding lookup
  All-lookup P k [] h found = cc
  All-lookup P k ((j, w) ∷ m) {v} h found = elim (Bool-cases (e.beq j k)) [
    | inl same ↦
        let value : w ≡ v = ground arith in
        subst₂ (λ x y. P (x, y)) ((e.beq_iff j k).0 same) value h.0
    | inr other ↦ All-lookup P k m h.1 (rw (other, lookup) at found)
  ]

  pub All-delete {ℓ} : (P : K × V → Type ℓ) (k : K) (m : Assoc K V) → All P m → All P (delete k m)
  unfolding delete
  All-delete P k [] h = tt
  All-delete P k ((j, w) ∷ m) h = elim (Bool-cases (e.beq j k)) [
    | inl same ↦ rw same (All-delete P k m h.1)
    | inr other ↦ rw other (h.0, All-delete P k m h.1)
  ]

  pub All-insert {ℓ} :
      (P : K × V → Type ℓ) (k : K) (v : V) (m : Assoc K V)
      → P (k, v)
      → All P m
      → All P (insert k v m)
  unfolding insert
  All-insert P k v m hv h = (hv, All-delete P k m h)

  -- No key occurs twice.
  abbrev pub HasDistinctKeys : Assoc K V → Type 0
  HasDistinctKeys [] = Unit {0}
  HasDistinctKeys ((k, v) ∷ m) = (lookup k m ≡ none) × HasDistinctKeys m

  lookup-delete_none : (k j : K) (m : Assoc K V) → lookup j m ≡ none → lookup j (delete k m) ≡ none
  lookup-delete_none k j m h = ground (arith, lookup-delete k j m)

  pub delete-HasDistinctKeys :
      (k : K) (m : Assoc K V) → HasDistinctKeys m → HasDistinctKeys (delete k m)
  unfolding delete
  delete-HasDistinctKeys k [] h = tt
  delete-HasDistinctKeys k ((j, w) ∷ m) h = elim (Bool-cases (e.beq j k)) [
    | inl same ↦ rw same (delete-HasDistinctKeys k m h.1)
    | inr other ↦ rw other (lookup-delete_none k j m h.0, delete-HasDistinctKeys k m h.1)
  ]

  pub insert-HasDistinctKeys :
      (k : K) (v : V) (m : Assoc K V) → HasDistinctKeys m → HasDistinctKeys (insert k v m)
  unfolding insert
  insert-HasDistinctKeys k v m h =
      (lookup-delete k k m ∙ rw (beq_refl k), delete-HasDistinctKeys k m h)
