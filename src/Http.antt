-- ===== src/Http.antt =====
-- http/server.go: the public server, which answers with the results of a client. The JSON form of a result
-- is a parameter, and so are the answers of the client and the clock's readings. A waiter is the channel
-- of a request that waits for the next round.
pub mod Waiters
use drand.Prelude.{
  ℕ, suc, ◌+◌, ◌-◌, ◌*◌, ◌/◌, ◌%◌, ◌^◌, Bool, true, false, not, ◌&&◌, ◌||◌, Option, none, some,
  List, [], ◌∷◌, ◌++◌, map, ltb, ◌==◌, if◌then◌else◌, Result, ok, err, Bytes,
}
use drand.Prelude.Int.{ℤ, pos, negsuc, ltb_ℤ, ◌+ℤ◌, ◌-ℤ◌, ◌*ℤ◌}
use drand.Chain.Time.{time_of_round, current_round}
use drand.Client.Verify.{RandomData}

-- The period in nanoseconds, the genesis in seconds
pub record ServedChain : Type 0 where
  pub period : ℤ
  pub genesis_time : ℤ

-- A channel in pending, with the round that its request is for
pub record Waiter : Type 0 where
  pub id : ℕ
  pub round : ℕ

pub record Handler : Type 0 where
  pub chain_info : Option ServedChain
  pub pending : List Waiter
  pub latest_round : ℕ

abbrev pub nanoseconds : ℤ → ℤ
nanoseconds seconds = seconds *ℤ pos 1000000000

module _ (marshal : RandomData → Bytes) where
  -- The turn of Watch for a result: the handler, and what goes to the waiters
  unfoldable pub watch_next : Handler → RandomData → Handler × List (Waiter × Bytes)
  watch_next h next =
      let missed = not ((h.latest_round + 1) % 2 ^ 64 == next.rnd) && not (h.latest_round == 0) in
      let b = if missed then [] else marshal next in
      (record h { latest_round = next.rnd; pending = [] }, map (λ w. (w, b)) h.pending)

  -- Watch, when the stream ended: it is opened again.
  unfoldable pub watch_failed : Handler → Handler
  watch_failed h = record h { latest_round = 0 }

  -- getRand: whether to wait for the round
  unfoldable pub blocks : Handler → ℕ → Bool
  blocks h round = (h.latest_round + 1) % 2 ^ 64 == round && not (h.latest_round == 0)

  unfoldable pub join : Handler → Waiter → Handler
  unfolding blocks
  join h w = if blocks h w.round then record h { pending = h.pending ++ w ∷ [] } else h

  -- getRand, when the context of a waiter is done
  unfoldable pub without : List Waiter → ℕ → List Waiter
  without [] id = []
  without (w ∷ ws) id = let rest = without ws id in if w.id == id then ws else w ∷ rest

  unfoldable pub leave : Handler → ℕ → Handler
  unfolding without
  leave h id = record h { pending = without h.pending id }

  -- What the watch and the requests do to the handler, one step at a time; and what waiters get by it
  pub data ServerEvent : Type 0 where
    comes : RandomData → ServerEvent
    fails : ServerEvent
    joins : Waiter → ServerEvent
    leaves : ℕ → ServerEvent

  unfoldable pub on_event : Handler → ServerEvent → Handler × List (Waiter × Bytes)
  unfolding watch_next watch_failed join leave
  on_event h (comes r) = watch_next h r
  on_event h fails = (watch_failed h, [])
  on_event h (joins w) = (join h w, [])
  on_event h (leaves id) = (leave h id, [])

  unfoldable pub deliveries : Handler → List ServerEvent → List (Waiter × Bytes)
  unfolding on_event
  deliveries h [] = []
  deliveries h (e ∷ es) = let (h', sent) = on_event h e in sent ++ deliveries h' es

  -- getRand without a wait, at the time `now` in nanoseconds: none for a round that does not exist yet
  unfoldable pub get_rand :
      ServedChain → ℕ → ℤ → Option RandomData → Result (Unit {0}) (Option Bytes)
  get_rand info round now answer =
      if ltb_ℤ now (nanoseconds (time_of_round info.period info.genesis_time round))
      then ok none
      else elim answer [ none ↦ err tt | some r ↦ ok (some (marshal r)) ]

  -- The answers of PublicRand: the codes, with the headers on caching
  pub data Response : Type 0 where
    bad_request internal_error : Response
    -- 404 with the seconds until the round
    in_future : ℕ → Response
    -- 404, not to be cached
    not_yet : Response
    -- 200, to be cached as immutable
    immutable : Bytes → Response
    -- 200, with the seconds that it may be cached, the expiry and the last change
    latest_found : Bytes → Option ℕ → ℤ → ℤ → Response
    -- 204
    no_content : Response

  unfoldable pub respond : Result (Unit {0}) (Option Bytes) → Response
  respond (err e) = internal_error
  respond (ok none) = not_yet
  respond (ok (some body)) = immutable body

  -- PublicRand: the round, none if it is no number; the chain, none if it is not known; and what getRand
  -- gives
  unfoldable pub public_rand :
      Option ℕ → Option ServedChain → ℤ → Result (Unit {0}) (Option Bytes) → Response
  unfolding respond
  public_rand none info now body = bad_request
  public_rand (some round) none now body = internal_error
  public_rand (some round) (some info) now body =
      let expected = nanoseconds (time_of_round info.period info.genesis_time round) in
      if ltb_ℤ (now +ℤ info.period) expected
      then in_future (elim (expected -ℤ now) [ pos n ↦ n / 1000000000 | negsuc n ↦ 0 ])
      else respond body

  -- Health: the round seen last, the round expected, and whether the code is 200
  unfoldable pub health : Handler → Option ServedChain → ℤ → ℕ × ℕ × Bool
  health h none now = (h.latest_round, 0, false)
  health h (some info) now =
      let expected = current_round now info.period info.genesis_time in
      (
        h.latest_round,
        expected,
        h.latest_round == expected || (h.latest_round + 1) % 2 ^ 64 == expected,
      )

  -- getChainInfo, with what the client answers
  unfoldable pub get_chain_info : Handler → Option ServedChain → Handler × Option ServedChain
  get_chain_info h answer = elim h.chain_info [
    | some info ↦ (h, some info)
    | none ↦ (record h { chain_info = answer }, answer)
  ]

  -- The quotient by catchupExpiryFactor, towards 0
  abbrev pub halved : ℤ → ℤ
  halved (pos n) = pos (n / 2)
  halved (negsuc n) = pos 0 -ℤ pos ((n + 1) / 2)

  -- LatestRand: when the next round is due, and the time of the round
  unfoldable pub latest_times : Option ServedChain → ℤ → ℕ → ℤ × ℤ
  latest_times none now round = (now, now)
  latest_times (some info) now round =
      let next = nanoseconds (time_of_round info.period info.genesis_time ((round + 1) % 2 ^ 64)) in
      (
        if ltb_ℤ now next then next else now +ℤ halved info.period,
        nanoseconds (time_of_round info.period info.genesis_time round),
      )

  -- The header on caching: the seconds that remain, rounded up; none where it is not set
  unfoldable pub seconds_up : ℤ → ℕ
  seconds_up (pos n) = (n + 999999999) / 1000000000
  seconds_up (negsuc n) = 0

  unfoldable pub max_age : Option ServedChain → ℤ → Option ℕ
  unfolding seconds_up
  max_age none remaining = none
  max_age (some info) remaining =
      if ltb_ℤ (pos 0) remaining && ltb_ℤ remaining info.period
      then some (seconds_up remaining)
      else none

  -- LatestRand, with the answer of the client and two readings of the clock
  unfoldable pub latest_rand : Option RandomData → Option ServedChain → ℤ → ℤ → Response
  unfolding latest_times max_age
  latest_rand none info now later = internal_error
  latest_rand (some r) info now later =
      let (next, changed) = latest_times info now r.rnd in
      latest_found (marshal r) (max_age info (next -ℤ later)) next changed

  -- ChainInfo, with the JSON form of the information
  unfoldable pub serve_chain_info : Option Bytes → Response
  serve_chain_info none = no_content
  serve_chain_info (some body) = immutable body
