-- ===== src/Client/Sources.antt =====
-- client/poll.go, client/grpc/client.go, client/empty.go, client/watcher.go: the clients that others wrap.
-- Times are in seconds. What a server answers is an argument, and so are the times at which the ticker of
-- a polling watcher ticks.

pub mod Polling
use drand.Prelude.{
  ℕ, Bool, true, false, Option, none, some, List, [], ◌∷◌, ◌*◌, Result, ok, err, Bytes,
}
use drand.Prelude.Int.{ℤ, pos, ◌-ℤ◌, ◌*ℤ◌}
use drand.Chain.Time.{current_round, next_round}
use drand.Chain.Info.{ChainInfo, ChainInfoPacket, info_from_proto}
use drand.Client.Verify.{RandomData}
use drand.Key.Suite.{Suite}

pub data SourceError : Type 0 where
  request_failed unexpected_response unsupported_get bad_info : SourceError

-- PollingWatcher, after the first get: what is sent. A get that fails gives none and is skipped.
unfoldable pub polled {ℓ} : {R : Type ℓ} → (ℤ → ℕ) → (ℤ → ℕ → Option R) → List ℤ → List R
polled round_at ask [] = []
polled round_at ask (t ∷ ts) =
    let rest = polled round_at ask ts in
    elim (ask t (round_at t)) [ none ↦ rest | some r ↦ r ∷ rest ]

-- PollingWatcher, from the time `start`: a first get that fails ends it.
unfoldable pub polling_watcher {ℓ} :
    {R : Type ℓ} → (ℤ → ℕ) → (ℤ → ℕ → Option R) → ℤ → List ℤ → List R
unfolding polled
polling_watcher round_at ask start times = elim (ask start (round_at start)) [
  | none ↦ []
  | some r ↦ r ∷ polled round_at ask times
]

-- How long it waits for the round boundary, in nanoseconds, for two readings of the clock
unfoldable pub first_wait : ℤ → ℤ → ℤ → ℤ → ℤ
first_wait period genesis now later = ((next_round now period genesis).1 -ℤ later) *ℤ pos 1000000000

-- Get of the gRPC client, where the messages are RandomData already: none for an error, some none for an
-- answer that is nil
unfoldable pub grpc_get : Option (Option RandomData) → Result SourceError RandomData
grpc_get none = err request_failed
grpc_get (some none) = err unexpected_response
grpc_get (some (some r)) = ok r

-- translate: what Recv gives, with whether the context is done by then
unfoldable pub translate : List (Option RandomData × Bool) → List RandomData
translate [] = []
translate ((none, done) ∷ es) = []
translate ((some r, true) ∷ es) = []
translate ((some r, false) ∷ es) = r ∷ translate es

-- Watch of the gRPC client, where the stream may not open
unfoldable pub grpc_watch : Option (List (Option RandomData × Bool)) → List RandomData
unfolding translate
grpc_watch none = []
grpc_watch (some es) = translate es

module _ (K : Suite) (sha256 : Bytes → Bytes) where
  abbrev pub info_answer : ChainInfoPacket → Result SourceError (ChainInfo K sha256)
  info_answer p = elim (info_from_proto K sha256 p) [ err e ↦ err bad_info | ok i ↦ ok i ]

  -- Info and RoundAt of the gRPC client
  unfoldable pub grpc_info :
      Option (Option ChainInfoPacket) → Result SourceError (ChainInfo K sha256)
  grpc_info none = err request_failed
  grpc_info (some none) = err unexpected_response
  grpc_info (some (some p)) = info_answer p

unfoldable pub grpc_round_at : Option ChainInfoPacket → ℤ → ℕ
unfolding current_round
grpc_round_at none now = 0
grpc_round_at (some p) now = current_round now (pos (p.period * 1000000000)) p.genesis_time

-- The client that only knows the chain
unfoldable pub empty_get : ℕ → Result SourceError RandomData
empty_get round = err unsupported_get

module _ (K : Suite) (sha256 : Bytes → Bytes) where
  unfoldable pub empty_round_at : ChainInfo K sha256 → ℤ → ℕ
  unfolding current_round
  empty_round_at i now = current_round now i.period i.genesis_time
