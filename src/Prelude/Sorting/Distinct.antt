-- ===== src/Prelude/Sorting/Distinct.antt =====
-- Sorting by a key that tells all elements apart: the result does not depend on the order before.
use drand.Prelude.Tests.{ltb}
use drand.Prelude.Lists.{All}
use mathlib.Core.Logic.Or
use Prim.Native.Nat.{ℕ}
use mathlib.Core.Path.{◌≡◌, refl, sym, ap, ap₂, subst, ◌∙◌}
use mathlib.Core.Logic.{◌≢◌, ∥∥₁_elim}
use mathlib.Core.Bool.{Bool}
use mathlib.Core.List.{
  List, [], ◌∷◌, Pairwise, Perm, Permᴰ, Mem, mem-cons_self, not-mem-nil, eq-or-mem_of_mem-cons,
}
use mathlib.Core.List.Permᴰ
use native.Mathlib.Omega.{arith}
use drand.Prelude.Sorting.{insert_by, sort_by, sort_by-sorted, sort_by-IsSortedBy}

module _ {A : Type 0} (key : A → ℕ) where
  abbrev pub by_key : A → A → Bool
  by_key x y = ltb (key x) (key y)

  insert_by_comm :
      (x y : A) (l : List A)
      → key x ≢ key y
      → insert_by by_key x (insert_by by_key y l) ≡ insert_by by_key y (insert_by by_key x l)
  unfolding insert_by
  insert_by_comm x y [] h = ground arith
  insert_by_comm x y (z ∷ l) h = ground (arith, insert_by_comm x y l h)

  abbrev pub IsDistinct : List A → Type 0
  IsDistinct = Pairwise (λ x y. key x ≢ key y)

  sort_by-permᴰ : {l l' : List A} → Permᴰ l l' → IsDistinct l → sort_by by_key l ≡ sort_by by_key l'
  unfolding sort_by
  sort_by-permᴰ Permᴰ.nil h = refl
  sort_by-permᴰ (Permᴰ.cons e d) (Pairwise.cons h t) = ap₂ (insert_by by_key) e (sort_by-permᴰ d t)
  sort_by-permᴰ (Permᴰ.swap {a = a} {b = b} {l = l} e₁ e₂) (Pairwise.cons h t) =
      insert_by_comm a b (sort_by by_key l) (h b mem-cons_self)
      ∙ ap₂ (λ x y. insert_by by_key x (insert_by by_key y (sort_by by_key l))) e₂ e₁
  sort_by-permᴰ (Permᴰ.trans d₁ d₂) h =
      sort_by-permᴰ d₁ h
      ∙ sort_by-permᴰ d₂ (Permᴰ.pairwise (λ x y. hlevel) (λ x y n e. n (sym e)) d₁ h)

  -- A value of a set read from the sorted list
  pub apply_by_key :
      {B : Type 0}
      → IsSet B
      → (f : List A → B) → {l l' : List A} → Perm l l'
      → IsDistinct l
      → f (sort_by by_key l) ≡ f (sort_by by_key l')
  apply_by_key setB f p h = ∥∥₁_elim p (setB _ _) (λ d. ap f (sort_by-permᴰ d h))

  module _ {P : A → Type 0} (prop : (x : A) → IsProp (P x)) where
    member-All : (y : A) (l : List A) → All P l → Mem y l → P y
    member-All y [] v m = absurd (not-mem-nil m)
    member-All y (x ∷ l) v m =
        Or.elim (prop y) (eq-or-mem_of_mem-cons m) (λ e. subst P (sym e) v.0) (member-All y l v.1)

  pub IsDistinct-nil : IsDistinct []
  IsDistinct-nil = Pairwise.nil

  pub IsDistinct-cons :
      (x : A) (l : List A) → All (λ y. key x ≢ key y) l → IsDistinct l → IsDistinct (x ∷ l)
  IsDistinct-cons x l v d =
      Pairwise.cons (λ y m. member-All {P = λ z. key x ≢ key z} (λ z. hlevel) y l v m) d

  -- Sorting twice is sorting once.
  pub sort_by-twice : (l : List A) → sort_by by_key (sort_by by_key l) ≡ sort_by by_key l
  sort_by-twice l =
      sort_by-sorted by_key (sort_by by_key l)
        (sort_by-IsSortedBy by_key (λ x y h. ground arith) (λ x y z h k. ground arith) l)
