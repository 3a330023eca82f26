-- ===== src/Prelude/Words.antt =====
-- Machine words: uint64 as a number below 2 ^ 64, int64 as an integer, with Go's conversions between
-- them, and the floor of the binary logarithm.
use Prim.Native.Nat.{ℕ, zero, suc, ◌+◌, ◌-◌, ◌*◌, ◌/◌, ◌%◌, ◌^◌, ◌≤◌, ◌<◌}
use mathlib.Core.Path.{◌≡◌}
use mathlib.Core.Bool.{true, false}
use native.Mathlib.Omega.{arith}
use native.Mathlib.Nat.{pow-suc}
use drand.Prelude.Tests.{ltb, if◌then◌else◌}
use drand.Prelude.Int.{ℤ, pos, negsuc, ◌+ℤ◌, ◌-ℤ◌}

abbrev pub u64_mod : ℕ
u64_mod = 2 ^ 64

-- int64(w): the integer that a bit pattern stands for.
abbrev pub to_int64 : ℕ → ℤ
to_int64 w = if ltb w (2 ^ 63) then pos w else negsuc (2 ^ 64 - w - 1)

-- uint64(z): the bit pattern of an integer, modulo 2 ^ 64.
abbrev pub to_uint64 : ℤ → ℕ
to_uint64 (pos n) = n % 2 ^ 64
to_uint64 (negsuc n) = 2 ^ 64 - 1 - n % 2 ^ 64

-- int64 addition and subtraction wrap around.
unfoldable pub add_int64 : ℤ → ℤ → ℤ
unfolding ◌+ℤ◌
add_int64 a b = to_int64 (to_uint64 (a +ℤ b))

unfoldable pub sub_int64 : ℤ → ℤ → ℤ
unfolding ◌-ℤ◌
sub_int64 a b = to_int64 (to_uint64 (a -ℤ b))

pub add_int64_fits : (a b : ℕ) → a + b < 2 ^ 63 → add_int64 (pos a) (pos b) ≡ pos (a + b)
unfolding add_int64
add_int64_fits a b h = ground arith

pub sub_int64_fits : (a b : ℕ) → b ≤ a → a < 2 ^ 63 → sub_int64 (pos a) (pos b) ≡ pos (a - b)
unfolding sub_int64
sub_int64_fits a b h k = ground arith

-- The floor of the binary logarithm, 0 at 0. The halvings are fewer than the number.
unfoldable pub log2_from : ℕ → ℕ → ℕ
log2_from zero n = 0
log2_from (suc f) n = elim (ltb n 2) [ true ↦ 0 | false ↦ suc (log2_from f (n / 2)) ]

unfoldable pub log2 : ℕ → ℕ
unfolding log2_from
log2 n = log2_from n n

log2_from_bounds : (f n : ℕ) → n ≤ f → 0 < n → (2 ^ log2_from f n ≤ n) × (n < 2 * 2 ^ log2_from f n)
unfolding log2_from
log2_from_bounds zero n h k = absurd (omega arith)
log2_from_bounds (suc f) n h k =
    ground (arith, log2_from_bounds f (n / 2), pow-suc 2 (log2_from f (n / 2)))

pub log2_bounds : (n : ℕ) → 0 < n → (2 ^ log2 n ≤ n) × (n < 2 * 2 ^ log2 n)
unfolding log2
log2_bounds n h = log2_from_bounds n n (omega arith) h
