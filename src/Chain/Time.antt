-- ===== src/Chain/Time.antt =====
-- chain/time.go: rounds and their times. A `time.Duration` is an int64 of nanoseconds. Go computes with
-- `period.Seconds()`, a float64; for whole seconds and times below 2 ^ 53 the floors that it takes are
-- those of the exact quotients, which stand here; from 2 ^ 53 on they can differ, and the theorems on
-- the values of rounds keep below.
pub mod Bounds
pub mod Rounds
use drand.Prelude.{
  ℕ, zero, suc, ◌+◌, ◌-◌, ◌*◌, ◌/◌, ◌%◌, ◌^◌, ◌≡◌, Bool, true, false, arith, ltb, leb, ◌==◌,
  if◌then◌else◌,
}
use drand.Prelude.Int.{ℤ, pos, negsuc, pos_part, ltb_ℤ}
use drand.Prelude.Words.{to_int64, add_int64, sub_int64, log2}

abbrev pub nanos : ℕ
nanos = 1_000_000_000

-- uint64(period.Seconds()). The conversion of a negative float64 is left open by Go; it is 0 here.
unfoldable pub whole_seconds : ℤ → ℕ
whole_seconds p = pos_part p / nanos

-- const maxTimeBuffer = int64(1 << 36)
abbrev pub max_time_buffer : ℕ
max_time_buffer = 2 ^ 36

-- math.MaxInt64 - maxTimeBuffer
abbrev pub time_of_round_error_value : ℕ
time_of_round_error_value = 2 ^ 63 - 1 - max_time_buffer

-- int(math.Log2(period.Seconds() + 1))
unfoldable pub period_bits : ℤ → ℕ
period_bits p = log2 (whole_seconds p + 1)

-- math.MaxUint64 >> (int(periodBits) + 2)
unfoldable pub round_limit : ℤ → ℕ
round_limit p = (2 ^ 64 - 1) / 2 ^ (period_bits p + 2)

unfoldable pub time_of_round : ℤ → ℤ → ℕ → ℤ
time_of_round period genesis round =
    if round == 0
    then genesis
    else if ltb_ℤ period (pos 0)
    then pos time_of_round_error_value
    else if leb (round_limit period) round
    then pos time_of_round_error_value
    else (let delta = (round - 1) * whole_seconds period % 2 ^ 64 in
        let val = add_int64 genesis (to_int64 delta) in
        if ltb_ℤ (pos time_of_round_error_value) val then pos time_of_round_error_value else val)

-- uint64(math.Floor(float64(fromGenesis) / period.Seconds())), for whole seconds below 2 ^ 53
unfoldable pub periods_in : ℤ → ℤ → ℕ
periods_in from period = pos_part from * nanos / pos_part period

-- The next round and its time.
unfoldable pub next_round : ℤ → ℤ → ℤ → ℕ × ℤ
next_round now period genesis =
    if ltb_ℤ now genesis
    then (1, genesis)
    else (let from_genesis = sub_int64 now genesis in
        let next = (periods_in from_genesis period + 1) % 2 ^ 64 in
        let next_time = add_int64 genesis (to_int64 (next * whole_seconds period % 2 ^ 64)) in
        ((next + 1) % 2 ^ 64, next_time))

unfoldable pub current_round : ℤ → ℤ → ℤ → ℕ
current_round now period genesis =
    let next = (next_round now period genesis).0 in if leb next 1 then next else next - 1
