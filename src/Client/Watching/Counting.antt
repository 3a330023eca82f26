-- ===== src/Client/Watching/Counting.antt =====
-- client/optimizing.go: how often a client stands in the list of those watched, as it grows and shrinks.
use drand.Prelude.{
  ◌<◌, true, ℕ, zero, suc, ◌+◌, ◌≡◌, refl, false, some, List, [], ◌∷◌, ◌++◌, ◌==◌, if◌then◌else◌,
  length, get_last?, arith, Option-cases, inl, inr,
}
use drand.Client.Watching.{index_in, drop_last, set_at, swap_remove, is_in}

-- How often a client stands in a list.
abbrev pub times : ℕ → List ℕ → ℕ
times d [] = 0
times d (a ∷ l) = (if a == d then 1 else 0) + times d l

pub times-is_in : (l : List ℕ) (d : ℕ) → (is_in l d ≡ false → times d l ≡ 0)
times-is_in [] d h = refl
times-is_in (a ∷ l) d h = ground (arith, times-is_in l d)

pub is_in-times : (l : List ℕ) (d : ℕ) → is_in l d ≡ true → 0 < times d l
is_in-times [] d h = cc
is_in-times (a ∷ l) d h = ground (arith, is_in-times l d)

pub times-append :
    (d : ℕ) (l : List ℕ) (c : ℕ) → times d (l ++ c ∷ []) ≡ times d l + (if c == d then 1 else 0)
times-append d [] c = ground arith
times-append d (a ∷ l) c = ground (arith, times-append d l c)

pub length-snoc : (l : List ℕ) (c : ℕ) → length (l ++ c ∷ []) ≡ length l + 1
length-snoc [] c = refl
length-snoc (a ∷ l) c = omega (arith, length-snoc l c)

times-drop_last :
    (d : ℕ) (l : List ℕ) (z : ℕ)
    → get_last? l ≡ some z
    → (times d (drop_last l) + (if z == d then 1 else 0) ≡ times d l)
      × (length (drop_last l) + 1 ≡ length l)
unfolding drop_last
times-drop_last d [] z h = cc
times-drop_last d (x ∷ []) z h = ground arith
times-drop_last d (x ∷ y ∷ l) z h = ground (arith, times-drop_last d (y ∷ l) z h)

get_last?-set_at : (i z : ℕ) (l : List ℕ) → get_last? l ≡ some z → get_last? (set_at i z l) ≡ some z
unfolding set_at
get_last?-set_at i z [] h = cc
get_last?-set_at zero z (x ∷ []) h = refl
get_last?-set_at zero z (x ∷ y ∷ l) h = h
get_last?-set_at (suc i) z (x ∷ []) h = h
get_last?-set_at (suc zero) z (x ∷ y ∷ l) h = get_last?-set_at zero z (y ∷ l) h
get_last?-set_at (suc (suc i)) z (x ∷ y ∷ l) h = get_last?-set_at (suc i) z (y ∷ l) h

times-set_at :
    (d : ℕ) (l : List ℕ) (c i z : ℕ)
    → index_in l c ≡ some i
    → (times d (set_at i z l) + (if c == d then 1 else 0) ≡ times d l + (if z == d then 1 else 0))
      × (length (set_at i z l) ≡ length l)
unfolding index_in set_at
times-set_at d [] c i z h = cc
times-set_at d (a ∷ l) c zero z h = elim (Option-cases (index_in l c)) [
  | inl absent ↦ ground arith
  | inr (j, found) ↦ ground arith
]
times-set_at d (a ∷ l) c (suc i) z h = elim (Option-cases (index_in l c)) [
  | inl absent ↦ absurd (ground arith)
  | inr (j, found) ↦ ground (arith, times-set_at d l c i z)
]

index_in-last : (l : List ℕ) (c i : ℕ) → index_in l c ≡ some i → (z : ℕ) × (get_last? l ≡ some z)
unfolding index_in
index_in-last [] c i h = cc
index_in-last (x ∷ []) c i h = (x, refl)
index_in-last (x ∷ y ∷ l) c i h = last_of y l
  where
    last_of : (y : ℕ) (l : List ℕ) → (z : ℕ) × (get_last? (y ∷ l) ≡ some z)
    last_of y [] = (y, refl)
    last_of y (w ∷ l) = last_of w l

-- Taking a client out by its index removes it once and nothing else.
pub times-swap_remove :
    (d : ℕ) (l : List ℕ) (c i : ℕ)
    → index_in l c ≡ some i
    → (times d (swap_remove i l) + (if c == d then 1 else 0) ≡ times d l)
      × (length (swap_remove i l) + 1 ≡ length l)
unfolding swap_remove
times-swap_remove d l c i h =
    let (z, at_end) = index_in-last l c i h in
    let (moved, size) = times-set_at d l c i z h in
    let (shorter, size') = times-drop_last d (set_at i z l) z (get_last?-set_at i z l at_end) in
    rw (at_end, swap_remove) (omega arith, omega arith)
