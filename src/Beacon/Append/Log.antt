-- ===== src/Beacon/Append/Log.antt =====
-- chain/beacon/store.go: the append store as a log. The log is a list, the latest beacon first; it
-- knows of no keys, no encoding and no wrap-around. A fault is an error of the database.
use drand.Prelude.{
  ℕ, ◌+◌, ◌^◌, ◌≡◌, ◌<◌, ◌≤◌, refl, not, Option, none, some, List, [], ◌∷◌, ◌==◌, if◌then◌else◌,
  Result, ok, err, bytes_equal, bytes_equal_iff, arith, inl, inr, Result-cases, Bool-cases, length,
  All,
}
use drand.Chain.Block.{Beacon}
use drand.Store.{Store, StoreError, no_beacon_saved, IsRound}
use drand.Beacon.Append.{
  AppendError, invalid_round, invalid_previous_signature, store_failed, nil_dereference,
  AppendStore, put,
}
use drand.Beacon.Append.Linked.{IsCurrent, put-inv}

abbrev pub Fault : Type 0
Fault = Option StoreError

pub data Request : Type 0 where
  put_request : Beacon → Request
  get_request : ℕ → Request
  last_request : Request

pub data Answer : Type 0 where
  stored : Answer
  refused : AppendError → Answer
  found : Result StoreError Beacon → Answer

-- What an append-only log does.
abbrev pub append_to : List Beacon → Fault → Beacon → Result AppendError (List Beacon)
append_to [] fault b = err nil_dereference
append_to (l ∷ log) fault b =
    if not (b.round == l.round + 1)
    then err invalid_round
    else if not (bytes_equal l.signature b.previous_sig)
    then err invalid_previous_signature
    else elim fault [ none ↦ ok (b ∷ l ∷ log) | some e ↦ err (store_failed e) ]

abbrev pub read : List Beacon → ℕ → Result StoreError Beacon
read [] r = err no_beacon_saved
read (b ∷ log) r = let below = read log r in if b.round == r then ok b else below

abbrev pub head : List Beacon → Result StoreError Beacon
head [] = err no_beacon_saved
head (b ∷ log) = ok b

unfoldable pub log_put : List Beacon → Result AppendError (List Beacon) → Answer × List Beacon
log_put log (ok log') = (stored, log')
log_put log (err e) = (refused e, log)

unfoldable pub log_answer : Fault → List Beacon → Request → Answer × List Beacon
unfolding log_put
log_answer fault log (put_request b) = log_put log (append_to log fault b)
log_answer fault log (get_request r) = (found (read log r), log)
log_answer fault log last_request = (found (head log), log)

-- One request after the other, each with its fault; none where the faults run out
unfoldable pub log_answers : List Fault → List Beacon → List Request → List Answer
unfolding log_answer
log_answers faults log [] = []
log_answers [] log (q ∷ qs) =
    let (answer, log') = log_answer none log q in answer ∷ log_answers [] log' qs
log_answers (fault ∷ faults) log (q ∷ qs) =
    let (answer, log') = log_answer fault log q in answer ∷ log_answers faults log' qs

abbrev pub IsAsked : Request → Type 0
IsAsked (put_request b) = Unit
IsAsked (get_request r) = IsRound r
IsAsked last_request = Unit

module _ (S : Store) where
  -- The append store; Get and Last are those of the store that it embeds.
  unfoldable pub store_put :
      AppendStore S → Result AppendError (AppendStore S) → Answer × AppendStore S
  store_put a (ok a') = (stored, a')
  store_put a (err e) = (refused e, a)

  unfoldable pub store_answer : AppendStore S → Request → Answer × AppendStore S
  unfolding store_put
  store_answer a (put_request b) = store_put a (put S a b)
  store_answer a (get_request r) = (found (S.get a.store r), a)
  store_answer a last_request = (found (S.last a.store), a)

  unfoldable pub store_answers : AppendStore S → List Request → List Answer
  unfolding store_answer
  store_answers a [] = []
  store_answers a (q ∷ qs) = let (answer, a') = store_answer a q in answer ∷ store_answers a' qs

  -- The store holds the beacons of the log and no others, and its last one is the latest.
  pub record Represents (a : AppendStore S) (l : Beacon) (log : List Beacon) : Type 0 where
    pub current : IsCurrent S a l
    pub reads : (r : ℕ) → IsRound r → S.get a.store r ≡ read (l ∷ log) r

  -- One request: a fault of the log with which it answers as the store does.
  abbrev Simulates : AppendStore S → Beacon → List Beacon → Request → Type 0
  Simulates a l log q =
      (fault : Fault) × (l' : Beacon) × (log' : List Beacon) × (log_answer fault (l ∷ log) q
        ≡ ((store_answer a q).0, l' ∷ log'))
      × Represents (store_answer a q).1 l' log'
      × (l'.round ≤ l.round + 1)

  Represents-put :
      (a a' : AppendStore S) (l : Beacon) (log : List Beacon) (b : Beacon)
      → Represents a l log
      → l.round + 1 < 2 ^ 64
      → b.round ≡ l.round + 1
      → S.put a.store b ≡ ok a'.store
      → a'.last ≡ some b
      → Represents a' b (l ∷ log)
  Represents-put a a' l log b rep room next done cached =
      let valid = rep.current.valid in
      let round : IsRound b.round = omega arith in
      record {
        current = record {
          valid = S.put-IsValid a.store a'.store b valid round done;
          cached = cached;
          stored =
              S.last-put a.store a'.store b l valid round done rep.current.stored (omega arith);
        };
        reads = λ r small.
            let written = S.get-put a.store a'.store b r valid round small done in
            let before = rep.reads r small in
            elim (Bool-cases (b.round == r)) [
              | inl same ↦ rw (written, same) refl
              | inr other ↦ rw (written, other) before
            ];
      }

  -- What the store accepts, a log without a fault accepts.
  put-append_to :
      (a a' : AppendStore S) (l : Beacon) (log : List Beacon) (b : Beacon)
      → b.round ≡ l.round + 1
      → l.signature ≡ b.previous_sig
      → append_to (l ∷ log) none b ≡ ok (b ∷ l ∷ log)
  put-append_to a a' l log b next follows =
      ground (arith, bytes_equal_iff l.signature b.previous_sig)

  -- What the store refuses, a log with the fault of the database refuses with the same error.
  refused-append_to :
      (a : AppendStore S) (l : Beacon) (log : List Beacon) (b : Beacon) (e : AppendError)
      → a.last ≡ some l
      → l.round + 1 < 2 ^ 64
      → put S a b ≡ err e
      → (fault : Fault) × (append_to (l ∷ log) fault b ≡ err e)
  unfolding put
  refused-append_to a l log b e cached room h = elim (Result-cases (S.put a.store b)) [
    | inl (s, done) ↦ (none, ground arith)
    | inr (e', failed) ↦ (some e', ground arith)
  ]

  put-Simulates :
      (a : AppendStore S) (l : Beacon) (log : List Beacon) (b : Beacon)
      → Represents a l log
      → l.round + 1 < 2 ^ 64
      → Simulates a l log (put_request b)
  unfolding store_answer log_answer
  put-Simulates a l log b rep room = elim (Result-cases (put S a b)) [
    | inl (a', accepted) ↦
        let (round, follows, done, cached) = put-inv S a a' l b rep.current.cached accepted in
        let next : b.round ≡ l.round + 1 = omega arith in
        rw (accepted, store_put)
          (
            none,
            b,
            l ∷ log,
            rw (put-append_to a a' l log b next follows, log_put) refl,
            Represents-put a a' l log b rep room next done cached,
            omega arith,
          )
    | inr (e, failed) ↦
        let (fault, same) = refused-append_to a l log b e rep.current.cached room failed in
        rw (failed, store_put) (fault, l, log, rw (same, log_put) refl, rep, omega arith)
  ]

  answer-Simulates :
      (a : AppendStore S) (l : Beacon) (log : List Beacon) (q : Request)
      → Represents a l log
      → l.round + 1 < 2 ^ 64
      → IsAsked q
      → Simulates a l log q
  unfolding store_answer log_answer
  answer-Simulates a l log (put_request b) rep room asked = put-Simulates a l log b rep room
  answer-Simulates a l log (get_request r) rep room asked =
      (none, l, log, rw (rep.reads r asked) refl, rep, omega arith)
  answer-Simulates a l log last_request rep room asked =
      (none, l, log, rw rep.current.stored refl, rep, omega arith)

  -- The append store refines a log that is only appended to: to any requests it gives the answers of
  -- the log, for the faults of the database. Keys, encodings and wrap-around make no difference. The
  -- last round and the number of requests sum up below 2 ^ 64, and the rounds asked for are uint64.
  pub store_answers-log_answers :
      (qs : List Request) (a : AppendStore S) (l : Beacon) (log : List Beacon)
      → Represents a l log
      → l.round + length qs < 2 ^ 64
      → All IsAsked qs
      → (faults : List Fault) × (store_answers a qs ≡ log_answers faults (l ∷ log) qs)
  unfolding store_answers log_answers
  store_answers-log_answers [] a l log rep room asked = ([], refl)
  store_answers-log_answers (q ∷ qs) a l log rep room (asked, more) =
      let (fault, l', log', same, rep', grown) =
        answer-Simulates a l log q rep (omega arith) asked in
      let (faults, rest) =
        store_answers-log_answers qs (store_answer a q).1 l' log' rep' (omega arith) more in
      (fault ∷ faults, rw (same, rest) refl)
