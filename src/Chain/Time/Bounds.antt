-- ===== src/Chain/Time/Bounds.antt =====
-- chain/time.go: the arithmetic behind the rounds, on natural numbers.
use drand.Prelude.{ℕ, zero, suc, ◌+◌, ◌-◌, ◌*◌, ◌/◌, ◌^◌, ◌≤◌, ◌<◌, ◌≡◌, subst, arith}
use native.Mathlib.Nat.{mul-div-mul_right, le-div_iff_mul-le, mul-le-mul_left, pow-suc}
use native.Mathlib.Numerals.{towards_suc}
use drand.Prelude.Words.{log2, log2_bounds}

-- A whole number of seconds drops out of the quotient.
pub periods_whole : (d s : ℕ) → d * 1_000_000_000 / (s * 1_000_000_000) ≡ d / s
periods_whole d s = mul-div-mul_right d s (omega arith)

quadruple : (k : ℕ) → 2 ^ (k + 2) ≡ 4 * 2 ^ k
quadruple k = simp (towards_suc, pow-suc) (omega arith)

-- (r + 1) * 4b stays below 2 ^ 64 where (r - 1) * s is below 2 ^ 60 and b is near s.
scaled : (r s b : ℕ) → b ≤ 2 * s → b < 2 ^ 35 → (r - 1) * s < 2 ^ 60 → suc r * (4 * b) ≤ 2 ^ 64 - 1
scaled zero s b h k l = omega arith
scaled (suc r) s b h k l =
    let short : r * s < 2 ^ 60 = subst (λ t. t * s < 2 ^ 60) (omega arith) l in
    omega (arith, mul-le-mul_left r h)

-- Where a time below 2 ^ 60 is the time of a round, the guard on the round lets it through.
pub below_limit :
    (s r : ℕ)
    → 0 < s
    → s < 2 ^ 34
    → (r - 1) * s < 2 ^ 60
    → r < (2 ^ 64 - 1) / 2 ^ (log2 (s + 1) + 2)
below_limit s r hs hs' h =
    let (low, high) = log2_bounds (s + 1) (omega arith) in
    rw (quadruple (log2 (s + 1))) (
      (le-div_iff_mul-le {k = 4 * 2 ^ log2 (s + 1)} (omega arith)).1
        (scaled r s (2 ^ log2 (s + 1)) (omega arith) (omega arith) h))
