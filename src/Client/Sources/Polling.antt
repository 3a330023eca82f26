-- ===== src/Client/Sources/Polling.antt =====
-- client/poll.go: the rounds that a polling watcher delivers.
use drand.Prelude.{
  ℕ, zero, suc, ◌+◌, ◌-◌, ◌*◌, ◌/◌, ◌^◌, ◌<◌, ◌≤◌, ◌≡◌, refl, arith, List, [], ◌∷◌, map, Option,
  some,
}
use native.Mathlib.Nat.{div-eq_of_lt-le, div-mul-le_self}
use drand.Prelude.Int.{ℤ, pos, pos_part}
use drand.Chain.Time.{next_round, current_round}
use drand.Chain.Time.Rounds.{seconds, next_round_lem, current_round_lem}
use drand.Client.Sources.{polled, polling_watcher}

-- The times of a ticker: so many, from `t` on, `s` seconds apart
abbrev pub tick_times : ℕ → ℕ → ℕ → List ℤ
tick_times t s zero = []
tick_times t s (suc k) = pos t ∷ tick_times (t + s) s k

abbrev pub rounds_from : ℕ → ℕ → List ℕ
rounds_from r zero = []
rounds_from r (suc k) = r ∷ rounds_from (r + 1) k

module _ {ℓ} {R : Type ℓ} (s g : ℕ) (moves : 0 < s) (short : s < 2 ^ 34) (answer : ℕ → R) where
  abbrev round_at : ℤ → ℕ
  round_at t = current_round t (seconds s) (pos g)

  abbrev ask : ℤ → ℕ → Option R
  ask t r = some (answer r)

  polled_lem :
      (d q k : ℕ)
      → d < s
      → g + (q + k) * s + d < 2 ^ 60
      → polled round_at ask (tick_times (g + q * s + d) s k) ≡ map answer (rounds_from (q + 1) k)
  unfolding polled
  polled_lem d q zero h fits = refl
  polled_lem d q (suc k) h fits =
      let now = current_round_lem s g moves short (g + q * s + d) (omega arith) (omega arith) in
      let same : (g + q * s + d - g) / s ≡ q = div-eq_of_lt-le s (omega arith) (omega arith) in
      let more : g + q * s + d + s ≡ g + (q + 1) * s + d = omega arith in
      let rest = polled_lem d (q + 1) k h (omega arith) in
      rw (now, same, more, polled) (rw rest refl)

  -- A polling watcher of a source that answers every round delivers the current round and the rounds after
  -- it, each once and in order, when its ticker ticks from the time of the next round on, or up to less
  -- than a period later. The period is a positive number of seconds below 2 ^ 34; it starts after genesis,
  -- and the last tick lies below 2 ^ 53, where the quotient of float64s in the code is exact.
  pub polling_watcher_follows :
      (n d k : ℕ)
      → g ≤ n
      → d < s
      → n + (k + 2) * s < 2 ^ 53
      → let t = pos_part (next_round (pos n) (seconds s) (pos g)).1 in
        polling_watcher round_at ask (pos n) (tick_times (t + d) s k)
        ≡ map answer (rounds_from (current_round (pos n) (seconds s) (pos g)) (suc k))
  unfolding polling_watcher
  polling_watcher_follows n d k past h fits =
      let low = div-mul-le_self (n - g) s in
      let rest = polled_lem d ((n - g) / s + 1) k h (omega arith) in
      rw
        (
          next_round_lem s g moves short n past (omega arith),
          current_round_lem s g moves short n past (omega arith),
          polling_watcher,
        )
        (rw rest refl)
