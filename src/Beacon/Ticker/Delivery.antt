-- ===== src/Beacon/Ticker/Delivery.antt =====
-- chain/beacon/ticker.go: what the owner of a channel finds in it.
use drand.Prelude.{
  ℕ, zero, suc, ◌≡◌, refl, subst, sym, none, List, [], ◌∷◌, ◌++◌, map, arith, All, Bool-cases,
  Option-cases, inl, inr, ap, ◌∙◌, IfSome,
}
use drand.Prelude.Int.{ℤ, ltb_ℤ, ◌≤ℤ◌}
use drand.Chain.Time.{current_round}
use drand.Beacon.Ticker.{
  RoundInfo, ChannelInfo, Ticker, new_ticker, channel_at, send_info, round_at, tick_at, take_info,
}

-- What can happen to a ticker
pub data Event : Type 0 where
  opens : ℤ → Event
  ticks : ℤ → Event
  takes : ℕ → Event

unfoldable pub happen : Ticker → Event → Ticker
happen t (opens start) = channel_at t start
happen t (ticks now) = tick_at t now
happen t (takes i) = record t { channels = take_info t.channels i }

unfoldable pub happen_all : List Event → Ticker → Ticker
happen_all [] t = t
happen_all (e ∷ es) t = happen_all es (happen t e)

-- What waits in a channel is a round and its time: the current round at that time, which is not
-- before the start of the channel.
abbrev pub IsTimely : ℤ → ℤ → ChannelInfo → Type 0
IsTimely period genesis c =
    IfSome
      (λ (info : RoundInfo).
        (info.round ≡ current_round info.time period genesis) × (c.start_at ≤ℤ info.time))
      c.ch

abbrev pub IsTicking : ℤ → ℤ → Ticker → Type 0
IsTicking period genesis t =
    (t.period ≡ period) × (t.genesis ≡ genesis) × All (IsTimely period genesis) t.channels

module _ (period genesis : ℤ) where
  opened :
      (cs : List ChannelInfo) (start : ℤ)
      → All (IsTimely period genesis) cs
      → All (IsTimely period genesis) (cs ++ record { ch = none; start_at = start } ∷ [])
  opened [] start v = (tt, tt)
  opened (c ∷ cs) start v = (v.0, opened cs start v.1)

  sent :
      (now : ℤ) (c : ChannelInfo)
      → IsTimely period genesis c
      → IsTimely period genesis
          (send_info (record { round = current_round now period genesis; time = now }) c)
  unfolding send_info
  sent now c v = elim (Bool-cases (ltb_ℤ now c.start_at)) [
    | inl early ↦ ground arith
    | inr on_time ↦ elim (Option-cases c.ch) [
      | inl empty ↦ ground arith
      | inr (old, full) ↦ ground arith
    ]
  ]

  sent-All :
      (now : ℤ) (cs : List ChannelInfo)
      → All (IsTimely period genesis) cs
      → All
          (IsTimely period genesis)
          (map (send_info (record { round = current_round now period genesis; time = now })) cs)
  sent-All now [] v = tt
  sent-All now (c ∷ cs) v = (sent now c v.0, sent-All now cs v.1)

  taken :
      (cs : List ChannelInfo) (i : ℕ)
      → All (IsTimely period genesis) cs
      → All (IsTimely period genesis) (take_info cs i)
  unfolding take_info
  taken [] i v = tt
  taken (c ∷ cs) zero v = (tt, v.1)
  taken (c ∷ cs) (suc i) v = (v.0, taken cs i v.1)

  happen-IsTicking :
      (t : Ticker) (e : Event) → IsTicking period genesis t → IsTicking period genesis (happen t e)
  unfolding happen channel_at tick_at round_at
  happen-IsTicking t (opens start) (p, g, v) = (p, g, opened t.channels start v)
  happen-IsTicking t (ticks now) (p, g, v) = (
    p,
    g,
    let same : current_round now t.period t.genesis ≡ current_round now period genesis =
          ap (λ x. current_round now x t.genesis) p ∙ ap (current_round now period) g in
        subst
          (λ (r : ℕ).
            All (IsTimely period genesis)
              (map (send_info (record { round = r; time = now })) t.channels))
          (sym same) (sent-All now t.channels v),
  )
  happen-IsTicking t (takes i) (p, g, v) = (p, g, taken t.channels i v)

  happen_all-IsTicking :
      (es : List Event) (t : Ticker)
      → IsTicking period genesis t
      → IsTicking period genesis (happen_all es t)
  unfolding happen_all
  happen_all-IsTicking [] t v = v
  happen_all-IsTicking (e ∷ es) t v = happen_all-IsTicking es (happen t e) (happen-IsTicking t e v)

-- From a new ticker on, however channels are opened, ticks of the clock come and values are taken:
-- what waits in a channel is the current round at its time, never before the start of the channel.
pub happen_all-new_ticker :
    (period genesis : ℤ) (es : List Event)
    → All (IsTimely period genesis) (happen_all es (new_ticker period genesis)).channels
unfolding new_ticker
happen_all-new_ticker period genesis es =
    (happen_all-IsTicking period genesis es (new_ticker period genesis) (refl, refl, tt)).2
