-- ===== src/Chain/Time/Rounds.antt =====
-- chain/time.go: rounds and times against each other, for a period of whole seconds.
use drand.Prelude.{max, ℕ, ◌+◌, ◌-◌, ◌*◌, ◌/◌, ◌^◌, ◌≤◌, ◌<◌, ◌≡◌, refl, ap, ◌∙◌, arith}
use native.Mathlib.Nat.{
  mul-div_cancel, div-mul-le_self, lt-div-mul-add, div-eq_of_lt-le, mul-le-mul_right,
}
use drand.Prelude.Int.{ℤ, pos, negsuc, ◌≤ℤ◌, ◌+ℤ◌}
use native.Mathlib.Decide.{dec_le}
use drand.Prelude.Words.{add_int64, add_int64_fits, sub_int64_fits}
use drand.Chain.Time.{
  nanos, whole_seconds, period_bits, periods_in, round_limit, time_of_round_error_value,
  time_of_round, next_round, current_round,
}
use drand.Chain.Time.Bounds.{periods_whole, below_limit}

-- A period of `s` whole seconds.
abbrev pub seconds : ℕ → ℤ
seconds s = pos (s * nanos)

pub whole_seconds_lem : (s : ℕ) → whole_seconds (seconds s) ≡ s
unfolding whole_seconds
whole_seconds_lem s = mul-div_cancel s (omega arith)

round_limit-lt : (s r : ℕ) → 0 < s → s < 2 ^ 34 → (r - 1) * s < 2 ^ 60 → r < round_limit (seconds s)
unfolding round_limit period_bits
round_limit-lt s r h k l = rw (whole_seconds_lem s) (below_limit s r h k l)

periods_in_lem : (s d : ℕ) → periods_in (pos d) (seconds s) ≡ d / s
unfolding periods_in
periods_in_lem s d = periods_whole d s

add-two : (q : ℕ) → q + 2 ≡ q + 1 + 1
add-two q = omega arith

pos-+ℤ : (a b : ℕ) → pos a +ℤ pos b ≡ pos (a + b)
unfolding ◌+ℤ◌
pos-+ℤ a b = ground arith

module _ (s g : ℕ) where
  next_round_before : (n : ℕ) → n < g → next_round (pos n) (seconds s) (pos g) ≡ (1, pos g)
  unfolding next_round
  next_round_before n h = ground arith

module _ (s g : ℕ) (moves : 0 < s) (short : s < 2 ^ 34) where
  quotient : (r k : ℕ) → k < s → (g + (r - 1) * s + k - g) / s ≡ r - 1
  quotient r k h = div-eq_of_lt-le s (omega arith) (omega arith)

  -- The time of a round, where it lies below 2 ^ 60.
  pub time_of_round_lem :
      (r : ℕ)
      → 0 < r
      → g + (r - 1) * s < 2 ^ 60
      → time_of_round (seconds s) (pos g) r ≡ pos (g + (r - 1) * s)
  unfolding time_of_round
  time_of_round_lem r h k =
      rw (whole_seconds_lem s, time_of_round)
        (ground (arith, round_limit-lt s r moves short, add_int64_fits g ((r - 1) * s)))

  time_of_round_suc :
      (q : ℕ) → g + q * s < 2 ^ 60 → time_of_round (seconds s) (pos g) (q + 1) ≡ pos (g + q * s)
  time_of_round_suc q h =
      let back : q + 1 - 1 ≡ q = omega arith in
      time_of_round_lem (q + 1) (omega arith) (rw back h) ∙ ap (λ t. pos (g + t * s)) back

  -- The next round and its time in exact arithmetic, from genesis on.
  pub next_round_lem :
      (n : ℕ)
      → g ≤ n
      → n < 2 ^ 60
      → next_round (pos n) (seconds s) (pos g) ≡ ((n - g) / s + 2, pos (g + ((n - g) / s + 1) * s))
  unfolding next_round
  next_round_lem n h k =
      rw
        (
          sub_int64_fits n g h (omega arith),
          periods_in_lem s (n - g),
          whole_seconds_lem s,
          next_round,
        )
        (ground (arith, add_int64_fits g (((n - g) / s + 1) * s), div-mul-le_self (n - g) s))

  time_of_round_genesis : g < 2 ^ 60 → time_of_round (seconds s) (pos g) 1 ≡ pos g
  time_of_round_genesis h = time_of_round_suc 0 (omega arith) ∙ ap pos (omega arith)

  pub current_round_lem :
      (n : ℕ) → g ≤ n → n < 2 ^ 60 → current_round (pos n) (seconds s) (pos g) ≡ (n - g) / s + 1
  unfolding current_round
  current_round_lem n h k = rw (next_round_lem n h k, current_round) (ground arith)

  -- The time that `next_round` gives is the time of the round that it gives, and lies after `now`, at
  -- most one period after it or after genesis, where that is later. The period is a positive whole number
  -- of seconds below 2 ^ 34; `now` and genesis lie below 2 ^ 53, where the quotient of float64s that the
  -- code takes is exact.
  pub next_round_follows :
      (n : ℕ)
      → n < 2 ^ 53
      → g < 2 ^ 53
      → let (r, t) = next_round (pos n) (seconds s) (pos g) in
        (t ≡ time_of_round (seconds s) (pos g) r) × (pos (n + 1) ≤ℤ t) × (t ≤ℤ pos (max n g + s))
  next_round_follows n h k = elim (dec_le g n) [
    | yes past ↦
        let low = div-mul-le_self (n - g) s in
        let high = lt-div-mul-add {a = n - g} moves in
        rw (next_round_lem n past (omega arith), add-two ((n - g) / s))
          (rw (time_of_round_suc ((n - g) / s + 1) (omega arith)) (refl, omega arith, omega arith))
    | no before ↦
        rw (next_round_before s g n (omega arith), time_of_round_genesis (omega arith))
          (refl, omega arith, omega arith)
  ]

  -- From genesis on, `now` lies between the time of the current round and that of the round after it,
  -- for a period of whole seconds, positive and below 2 ^ 34, and `now` below 2 ^ 53.
  pub current_round_bracket :
      (n : ℕ)
      → g ≤ n
      → n < 2 ^ 53
      → let r = current_round (pos n) (seconds s) (pos g) in
        (time_of_round (seconds s) (pos g) r ≤ℤ pos n)
        × (pos (n + 1) ≤ℤ time_of_round (seconds s) (pos g) (r + 1))
  current_round_bracket n h k = rw (current_round_lem n h (omega arith)) (
      let past = div-mul-le_self (n - g) s in
      let ahead = lt-div-mul-add {a = n - g} moves in
      rw
        (
          time_of_round_suc ((n - g) / s) (omega arith),
          time_of_round_suc ((n - g) / s + 1) (omega arith),
        )
        (omega arith, omega arith))

  -- The current round is the inverse of the time of a round: it gives `r` from that time until a
  -- period later, exclusive. The period is a positive whole number of
  -- seconds below 2 ^ 34, and the times lie below 2 ^ 53, where the
  -- quotient of float64s that the code takes is exact.
  pub current_round-time_of_round :
      (r k : ℕ)
      → 0 < r
      → k < s
      → g + (r - 1) * s + k < 2 ^ 53
      → current_round (time_of_round (seconds s) (pos g) r +ℤ pos k) (seconds s) (pos g) ≡ r
  current_round-time_of_round r k h small fits =
      rw (time_of_round_lem r h (omega arith), pos-+ℤ (g + (r - 1) * s) k)
        (current_round_lem (g + (r - 1) * s + k) (omega arith) (omega arith)
          ∙ rw (quotient r k small) (omega arith))

module _ (s g : ℕ) where
  -- Before the time overflows, rounds in order have times in order, and none has a time above
  -- `TimeOfRoundErrorValue`. The genesis lies at or below that value, and the period is a whole number
  -- of seconds.
  pub time_of_round_mono :
      (q r : ℕ)
      → q ≤ r
      → g ≤ time_of_round_error_value
      → g + (r - 1) * s < 2 ^ 63
      → (time_of_round (seconds s) (pos g) q ≤ℤ time_of_round (seconds s) (pos g) r)
        × (time_of_round (seconds s) (pos g) r ≤ℤ pos time_of_round_error_value)
  unfolding time_of_round
  time_of_round_mono q r h low fits =
      rw (whole_seconds_lem s, time_of_round)
        (ground (
          arith,
          mul-le-mul_right {m = q - 1} {n = r - 1} s,
          add_int64_fits g ((q - 1) * s),
          add_int64_fits g ((r - 1) * s),
        ))

  -- The guard does not cover the sum with the genesis: where the round passes it and the sum is
  -- 2 ^ 63 or more, the time that is returned is negative. The delta fits an int64, and the period is a
  -- whole number of seconds.
  pub time_of_round_overflows :
      (r : ℕ)
      → 0 < r
      → r < round_limit (seconds s)
      → (r - 1) * s < 2 ^ 63
      → g < 2 ^ 63
      → 2 ^ 63 ≤ g + (r - 1) * s
      → time_of_round (seconds s) (pos g) r ≡ negsuc (2 ^ 64 - (g + (r - 1) * s) - 1)
  unfolding time_of_round add_int64
  time_of_round_overflows r h pass fits small over =
      rw (whole_seconds_lem s, time_of_round) (ground arith)
