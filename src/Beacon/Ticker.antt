-- ===== src/Beacon/Ticker.antt =====
-- chain/beacon/ticker.go: the rounds that are sent to the channels at each tick of the clock. A channel
-- holds one value; a full channel is passed over. The readings of the clock are arguments.
pub mod Delivery
use drand.Prelude.{Option, none, some, List, [], ◌∷◌, ◌++◌, map, if◌then◌else◌}
use drand.Prelude.Int.{ℤ, ltb_ℤ}
use drand.Chain.Time.{current_round}
use drand.Prelude.{ℕ, zero, suc, Bool, true, false}

pub record RoundInfo : Type 0 where
  pub round : ℕ
  pub time : ℤ

-- The buffer is what waits in the channel.
pub record ChannelInfo : Type 0 where
  pub ch : Option RoundInfo
  pub start_at : ℤ

pub record Ticker : Type 0 where
  pub period : ℤ
  pub genesis : ℤ
  pub channels : List ChannelInfo
  pub stopped : Bool

-- newTicker
unfoldable pub new_ticker : ℤ → ℤ → Ticker
new_ticker period genesis = record {
  period = period;
  genesis = genesis;
  channels = [];
  stopped = false;
}

-- ChannelAt
unfoldable pub channel_at : Ticker → ℤ → Ticker
channel_at t start = record t {
  channels = t.channels ++ record { ch = none; start_at = start } ∷ [];
}

-- Channel, at the time `now`
unfoldable pub channel : Ticker → ℤ → Ticker
unfolding channel_at
channel t now = channel_at t now

-- The send to one channel
unfoldable pub send_info : RoundInfo → ChannelInfo → ChannelInfo
send_info info chinfo =
    if ltb_ℤ info.time chinfo.start_at
    then chinfo
    else record chinfo { ch = elim chinfo.ch [ none ↦ some info | some old ↦ some old ] }

-- CurrentRound, at the time `now`
unfoldable pub round_at : Ticker → ℤ → ℕ
round_at t now = current_round now t.period t.genesis

-- case nt := <-chanTime, and the sends that follow
unfoldable pub tick_at : Ticker → ℤ → Ticker
unfolding send_info round_at
tick_at t nt = record t {
  channels = map (send_info (record { round = round_at t nt; time = nt })) t.channels;
}

-- The owner of a channel takes what waits in it.
unfoldable pub take_info : List ChannelInfo → ℕ → List ChannelInfo
take_info [] i = []
take_info (c ∷ cs) zero = record c { ch = none } ∷ cs
take_info (c ∷ cs) (suc i) = c ∷ take_info cs i

-- Stop; the loop closes the channels and returns.
unfoldable pub stop_ticker : Ticker → Ticker
stop_ticker t = record t { stopped = true }
