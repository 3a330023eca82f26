-- ===== src/Prelude/Sorting.antt =====
-- Go's sort.Slice and sort.Sort, of a slice by a strict order. Which of the elements that the order does
-- not tell apart comes first is left open there; the theorems say that the result is a permutation of
-- the slice in which none comes after a greater one.
pub mod Distinct
use Prim.Native.Nat.{suc}
use mathlib.Core.Path.{◌≡◌, refl, ap, ◌∙◌}
use mathlib.Core.Bool.{Bool, true, false}
use mathlib.Core.List.{List, [], ◌∷◌, Perm}
use mathlib.Core.Logic.{inl, inr}
use mathlib.Core.List.Perm
use native.Mathlib.Omega.{arith}
use drand.Prelude.Tests.{if◌then◌else◌, Bool-cases}
use drand.Prelude.Lists.{length, All}

module _ {A : Type 0} (less : A → A → Bool) where
  unfoldable pub insert_by : A → List A → List A
  insert_by x [] = x ∷ []
  insert_by x (y ∷ ys) = let rest = insert_by x ys in if less y x then y ∷ rest else x ∷ y ∷ ys

  unfoldable pub sort_by : List A → List A
  unfolding insert_by
  sort_by [] = []
  sort_by (x ∷ xs) = insert_by x (sort_by xs)

  -- Each element is greater than none that comes after it.
  abbrev pub IsSortedBy : List A → Type 0
  IsSortedBy [] = Unit
  IsSortedBy (x ∷ xs) = All (λ y. less y x ≡ false) xs × IsSortedBy xs

  insert_by-perm : (x : A) (l : List A) → Perm (insert_by x l) (x ∷ l)
  unfolding insert_by
  insert_by-perm x [] = Perm.rfl
  insert_by-perm x (y ∷ ys) = elim (Bool-cases (less y x)) [
    | inl before ↦
        rw (before, insert_by) (Perm.trans (Perm.cons y (insert_by-perm x ys)) (Perm.swap x y ys))
    | inr after ↦ rw (after, insert_by) Perm.rfl
  ]

  pub sort_by-perm : (l : List A) → Perm (sort_by l) l
  unfolding sort_by
  sort_by-perm [] = Perm.rfl
  sort_by-perm (x ∷ xs) = Perm.trans (insert_by-perm x (sort_by xs)) (Perm.cons x (sort_by-perm xs))

  length-insert_by : (x : A) (l : List A) → length (insert_by x l) ≡ suc (length l)
  unfolding insert_by
  length-insert_by x [] = refl
  length-insert_by x (y ∷ ys) = ground (arith, length-insert_by x ys)

  pub length-sort_by : (l : List A) → length (sort_by l) ≡ length l
  unfolding sort_by
  length-sort_by [] = refl
  length-sort_by (x ∷ xs) = length-insert_by x (sort_by xs) ∙ ap suc (length-sort_by xs)

  insert_by-All : (P : A → Type 0) (x : A) (l : List A) → P x → All P l → All P (insert_by x l)
  unfolding insert_by
  insert_by-All P x [] p v = (p, tt)
  insert_by-All P x (y ∷ ys) p v = elim (Bool-cases (less y x)) [
    | inl before ↦ rw (before, insert_by) (v.0, insert_by-All P x ys p v.1)
    | inr after ↦ rw (after, insert_by) (p, v)
  ]

  module _ (asymm : (x y : A) → less x y ≡ true → less y x ≡ false)
      (trans : (x y z : A) → less y x ≡ false → less z y ≡ false → less z x ≡ false) where
    above-All :
        (x y : A) (ys : List A)
        → less y x ≡ false
        → All (λ z. less z y ≡ false) ys
        → All (λ z. less z x ≡ false) ys
    above-All x y [] h v = tt
    above-All x y (z ∷ ys) h v = (trans x y z h v.0, above-All x y ys h v.1)

    insert_by-IsSortedBy : (x : A) (l : List A) → IsSortedBy l → IsSortedBy (insert_by x l)
    unfolding insert_by
    insert_by-IsSortedBy x [] s = (tt, tt)
    insert_by-IsSortedBy x (y ∷ ys) s = elim (Bool-cases (less y x)) [
      | inl before ↦
          rw (before, insert_by)
            (
              insert_by-All (λ z. less z y ≡ false) x ys (asymm y x before) s.0,
              insert_by-IsSortedBy x ys s.1,
            )
      | inr after ↦ rw (after, insert_by) ((after, above-All x y ys after s.0), s)
    ]

    pub sort_by-IsSortedBy : (l : List A) → IsSortedBy (sort_by l)
    unfolding sort_by
    sort_by-IsSortedBy [] = tt
    sort_by-IsSortedBy (x ∷ xs) = insert_by-IsSortedBy x (sort_by xs) (sort_by-IsSortedBy xs)

  -- Sorting leaves a sorted list as it is.
  insert_by-ahead : (x : A) (l : List A) → All (λ y. less y x ≡ false) l → insert_by x l ≡ x ∷ l
  unfolding insert_by
  insert_by-ahead x [] v = refl
  insert_by-ahead x (y ∷ ys) v = rw (v.0, insert_by) refl

  pub sort_by-sorted : (l : List A) → IsSortedBy l → sort_by l ≡ l
  unfolding sort_by
  sort_by-sorted [] v = refl
  sort_by-sorted (x ∷ xs) v = ap (insert_by x) (sort_by-sorted xs v.1) ∙ insert_by-ahead x xs v.0
