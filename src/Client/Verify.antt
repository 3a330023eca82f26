-- ===== src/Client/Verify.antt =====
-- client/verify.go: the client that verifies what another client returns. The answers of the wrapped
-- client and of the indirect one are parameters: none for an error.
pub mod Trust
pub mod Strict
use drand.Prelude.{
  ℕ, zero, suc, ◌+◌, ◌-◌, ◌%◌, ◌^◌, Bool, true, false, ◌||◌, Option, none, some, List, [], ◌∷◌, ltb,
  ◌==◌, if◌then◌else◌, Result, ok, err, Bytes,
}
use drand.Chain.Block.{Beacon, verify_beacon, randomness_from_signature}
use drand.Chain.Crypto.{Crypto}

-- RandomData; a nil previous signature is none
pub record RandomData : Type 0 where
  pub rnd : ℕ
  pub random : Bytes
  pub sig : Bytes
  pub previous_signature : Option Bytes

pub data VerifyError : Type 0 where
  no_info could_not_get invalid_beacon unexpected_trust_round : VerifyError

-- pointOfTrust and strict
pub record VerifyingClient : Type 0 where
  pub point_of_trust : Option RandomData
  pub strict : Bool

module _ (k : Crypto) where
  -- chain.Info: the key and the group hash
  pub record Info : Type 0 where
    pub public_key : k.Point
    pub group_hash : Bytes

  abbrev pub beacon_of : ℕ → Bytes → Bytes → Beacon
  beacon_of round previous sig = record { previous_sig = previous; round = round; signature = sig }

  module _ (indirect_get : ℕ → Option RandomData) where
    -- The rounds that the loop of getTrustedPreviousSignature loads: so many after `trust_round`. The
    -- result is the last signature, and the last round where one was loaded.
    unfoldable pub load :
        Info → ℕ → ℕ → Bytes → Option RandomData → Result VerifyError (Bytes × Option RandomData)
    load info zero trust_round trust_prev_sig next = ok (trust_prev_sig, next)
    load info (suc n) trust_round trust_prev_sig next = elim (indirect_get (trust_round + 1)) [
      | none ↦ err could_not_get
      | some r ↦
          elim (verify_beacon k info.public_key
            (beacon_of (trust_round + 1) trust_prev_sig r.sig)) [
              | false ↦ err invalid_beacon
              | true ↦ load info n (trust_round + 1) r.sig (some r)
            ]
    ]

    -- The round and the signature to start from
    unfoldable pub trust_from : Info → Option RandomData → ℕ → ℕ × Bytes
    trust_from info none round = (1, info.group_hash)
    trust_from info (some p) round =
        if ltb round p.rnd then (1, info.group_hash) else (p.rnd, p.sig)

    -- What is left of the loop: where it loaded nothing, the point of trust stays.
    unfoldable pub settle :
        VerifyingClient
        → Result VerifyError (Bytes × Option RandomData)
        → Result VerifyError Bytes × VerifyingClient
    settle v (err e) = (err e, v)
    settle v (ok (sig, none)) = (ok sig, v)
    settle v (ok (sig, some next)) = (ok sig, record v { point_of_trust = some next })

    -- From the trusted round and its signature on
    unfoldable pub trust_up_to :
        VerifyingClient → Info → ℕ → ℕ × Bytes → Result VerifyError Bytes × VerifyingClient
    unfolding settle
    trust_up_to v info target (trust_round, trust_prev_sig) =
        if ltb target trust_round
        then (err unexpected_trust_round, v)
        else settle v (load info (target - trust_round) trust_round trust_prev_sig none)

    -- getTrustedPreviousSignature; `round-1` wraps around at round 0
    unfoldable pub get_trusted_previous_signature :
        VerifyingClient → Info → ℕ → Result VerifyError Bytes × VerifyingClient
    unfolding trust_up_to trust_from
    get_trusted_previous_signature v info round =
        if round == 1
        then (ok info.group_hash, v)
        else trust_up_to v info ((round + (2 ^ 64 - 1)) % 2 ^ 64)
            (trust_from info v.point_of_trust round)

    -- verify, from the previous signature on
    unfoldable pub verify_upon :
        Info
        → RandomData
        → Result VerifyError Bytes × VerifyingClient
        → Result VerifyError RandomData × VerifyingClient
    verify_upon info r (err e, v) = (err e, v)
    verify_upon info r (ok ps, v) =
        if verify_beacon k info.public_key (beacon_of r.rnd ps r.sig)
        then (ok (record r { random = randomness_from_signature k r.sig }), v)
        else (err invalid_beacon, v)

    -- The previous signature that verify uses
    unfoldable pub previous_for :
        VerifyingClient
        → Info
        → RandomData
        → Option Bytes
        → Result VerifyError Bytes × VerifyingClient
    unfolding get_trusted_previous_signature
    previous_for v info r none = get_trusted_previous_signature v info r.rnd
    previous_for v info r (some ps) =
        if v.strict then get_trusted_previous_signature v info r.rnd else (ok ps, v)

    -- verify
    unfoldable pub verify_result :
        VerifyingClient → Info → RandomData → Result VerifyError RandomData × VerifyingClient
    unfolding previous_for verify_upon
    verify_result v info r = verify_upon info r (previous_for v info r r.previous_signature)

    -- Get, of what the wrapped client returned for the round
    unfoldable pub get_result :
        VerifyingClient
        → Option Info
        → Option RandomData
        → Result VerifyError RandomData × VerifyingClient
    unfolding verify_result
    get_result v none fetched = (err no_info, v)
    get_result v (some info) none = (err could_not_get, v)
    get_result v (some info) (some r) = verify_result v info r

    -- Watch: the results of the stream that verify, in order. The client's point of trust moves on.
    unfoldable pub watch : VerifyingClient → Info → List RandomData → List RandomData
    unfolding verify_result
    watch v info [] = []
    watch v info (r ∷ rs) =
        let (answer, v') = verify_result v info r in
        let later = watch v' info rs in elim answer [ err e ↦ later | ok rd ↦ rd ∷ later ]
