-- ===== src/Tests/ClientTests.antt =====
-- The theorems on the verifying client at concrete inputs.
use drand.Prelude.{
  List, ℕ, ◌≡◌, ◌≢◌, refl, true, false, Option, some, none, [], ◌∷◌, arith, Bytes, bytes_equal,
  bytes_equal_refl, subst, ok, ◌==◌, if◌then◌else◌,
}
use drand.Chain.Block.{verify_beacon, message, randomness_from_signature}
use drand.Chain.Encoding.{round_to_bytes, big_endian}
use drand.Client.Verify.{
  RandomData, VerifyingClient, Info, beacon_of, get_trusted_previous_signature, get_result,
  verify_result, verify_upon, previous_for, trust_up_to, trust_from, settle, load,
}
use drand.Client.Verify.Trust.{IsTrusted, IsStart, get_result-IsTrusted}
use drand.Client.Verify.Strict.{get_trusted-served, get_result-untrusted}
use drand.Client.Cache.{Cache, cached_get}
use drand.Client.Cache.Answers.{Call, IsHonest, AreAnswers, answers, answers-AreAnswers}
use drand.Prelude.{Bool-cases, inl, inr, sym, ◌∙◌, ==_iff}
use drand.Tests.Data.{toy}

abbrev chain_info : Info toy
chain_info = record { public_key = tt; group_hash = 7 ∷ [] }

-- The signatures of the toy chain: each is the message of its round.
abbrev sig_of : ℕ → Bytes
sig_of r =
    if r == 0
    then 7 ∷ []
    else if r == 1
    then message toy 1 (7 ∷ [])
    else message toy 2 (message toy 1 (7 ∷ []))

abbrev data_of : ℕ → RandomData
data_of r = record { rnd = r; random = []; sig = sig_of r; previous_signature = none }

abbrev honest : ℕ → Option RandomData
honest r = some (data_of r)

abbrev strict_client : VerifyingClient
strict_client = record { point_of_trust = some (data_of 1); strict = true }

abbrev untrusting : VerifyingClient
untrusting = record { point_of_trust = none; strict = true }

second_verifies : verify_beacon toy tt (beacon_of toy 2 (sig_of 1) (sig_of 2)) ≡ true
unfolding verify_beacon
second_verifies = bytes_equal_refl (sig_of 2)

second_refused : verify_beacon toy tt (beacon_of toy 2 (7 ∷ []) (sig_of 2)) ≡ false
unfolding verify_beacon message bytes_equal round_to_bytes big_endian
second_refused = refl

second_data : (d : RandomData) → honest 2 ≡ some d → data_of 2 ≡ d
second_data d e = cc

get_trusted-served_example :
    (get_trusted_previous_signature toy honest strict_client chain_info 3).0 ≡ ok (sig_of 2)
get_trusted-served_example =
    get_trusted-served toy chain_info honest strict_client (data_of 1) sig_of 1 refl refl
      (omega arith) (omega arith) ((data_of 2, refl, refl, second_verifies), tt)

get_result-IsTrusted_example :
    (ps : Bytes) × IsTrusted toy chain_info (IsStart toy chain_info strict_client) 1 ps
    × (verify_beacon toy tt (beacon_of toy 2 ps (sig_of 2)) ≡ true)
    × (record (data_of 2) { random = randomness_from_signature toy (sig_of 2) }
        ≡ record (data_of 2) { random = randomness_from_signature toy (sig_of 2) })
unfolding get_result verify_result verify_upon previous_for get_trusted_previous_signature
    trust_up_to trust_from settle load verify_beacon message bytes_equal round_to_bytes big_endian
get_result-IsTrusted_example =
    get_result-IsTrusted toy chain_info honest strict_client (data_of 2)
      (record (data_of 2) { random = randomness_from_signature toy (sig_of 2) }) refl refl

get_result-untrusted_example :
    (get_result toy honest untrusting (some chain_info) (some (data_of 2))).0 ≢ ok (data_of 2)
get_result-untrusted_example =
    get_result-untrusted toy chain_info honest untrusting (data_of 2) (data_of 2) refl refl
      (omega arith) (omega arith)
      (λ d e.
        subst (λ (t : RandomData). verify_beacon toy tt (beacon_of toy 2 (7 ∷ []) t.sig) ≡ false)
          (second_data d e) second_refused)
      (λ _. second_refused)

-- A cache of one place.
abbrev slot_get : Option (ℕ × RandomData) → ℕ → Option RandomData
slot_get none round = none
slot_get (some (r, d)) round = if r == round then some d else none

slot_added :
    (round other : ℕ) (d found : RandomData)
    → slot_get (some (round, d)) other ≡ some found
    → (round ≡ other) × (d ≡ found)
slot_added round other d found h = elim (Bool-cases (round == other)) [
  | inl same ↦ ((==_iff round other).0 same, some_same d found (sym (slot_here same) ∙ h))
  | inr different ↦
      let nothing : slot_get (some (round, d)) other ≡ none = rw different refl in absurd cc
]
  where
    slot_here : (round == other) ≡ true → slot_get (some (round, d)) other ≡ some d
    slot_here same = rw same refl

    some_same : (a b : RandomData) → some a ≡ some b → a ≡ b
    some_same a b e = cc

abbrev slot : Cache
slot = record {
  State = Option (ℕ × RandomData);
  empty = none;
  try_get = λ c round. (slot_get c round, c);
  add = λ c round result. some (round, result);
  try_get-empty = λ round. refl;
  try_get-add = λ c round other result found h. inl (slot_added round other result found h);
  try_get-try_get = λ c round other found h. h;
}

-- The latest result moves from round 2 to round 3, which is then asked for while the server is down.
abbrev server : ℕ → ℕ → Option RandomData
server latest r = some (data_of (if r == 0 then latest else r))

server-IsHonest : (latest : ℕ) → latest ≢ 0 → IsHonest slot data_of (server latest)
server-IsHonest latest some_round = record {
  known = λ round r e. subst (λ (t : RandomData). t ≡ data_of t.rnd) (served_data r _ e) refl;
  numbered =
      λ round r e. subst (λ (t : RandomData). t.rnd ≢ 0) (served_data r _ e) (above_zero round);
}
  where
    served_data : (a b : RandomData) → some b ≡ some a → b ≡ a
    served_data a b h = cc

    above_zero : (round : ℕ) → (if round == 0 then latest else round) ≢ 0
    above_zero round e = ground (arith, some_round)

down-IsHonest : IsHonest slot data_of (λ r. none)
down-IsHonest = record { known = λ round r e. cc; numbered = λ round r e. cc }

abbrev calls : List Call
calls =
    record { round = 0; client = server 2 }
    ∷ record { round = 0; client = server 3 }
    ∷ record { round = 3; client = λ r. none }
    ∷ []

answers-AreAnswers_example : AreAnswers slot data_of calls (answers slot data_of slot.empty calls)
answers-AreAnswers_example = answers-AreAnswers slot data_of calls (
  server-IsHonest 2 (λ e. omega arith),
  (server-IsHonest 3 (λ e. omega arith), (down-IsHonest, tt)),
)

latest_moves :
    answers slot data_of slot.empty calls
    ≡ some (data_of 2) ∷ some (data_of 3) ∷ some (data_of 3) ∷ []
unfolding answers cached_get
latest_moves = refl
