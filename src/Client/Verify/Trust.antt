-- ===== src/Client/Verify/Trust.antt =====
-- client/verify.go: what a result that the verifying client returns rests on.
use drand.Prelude.{
  ℕ, zero, suc, ◌+◌, ◌-◌, ◌%◌, ◌^◌, ◌≡◌, ◌≤◌, refl, sym, ap, subst, ◌∙◌, true, Option, none, some,
  ltb, ◌==◌, Result, ok, err, Bytes, arith, Bool-cases, Option-cases, inl, inr, ◌⊎◌,
}
use drand.Chain.Block.{verify_beacon, randomness_from_signature}
use drand.Chain.Crypto.{Crypto}
use drand.Client.Verify.{
  RandomData, VerifyError, could_not_get, invalid_beacon, unexpected_trust_round, VerifyingClient,
  Info, beacon_of, load, trust_from, settle, trust_up_to, get_trusted_previous_signature,
  verify_upon, previous_for, verify_result, get_result,
}

module _ (k : Crypto) (info : Info k) where
  -- A chain of signatures, each verified upon the one before, from a start that is trusted.
  pub data IsTrusted (start : ℕ → Bytes → Type 0) : ℕ → Bytes → Type 0 where
    anchor : {r : ℕ} {sig : Bytes} → start r sig → IsTrusted start r sig
    link :
        {r : ℕ} {previous sig : Bytes}
        → IsTrusted start r previous
        → verify_beacon k info.public_key (beacon_of k (r + 1) previous sig) ≡ true
        → IsTrusted start (r + 1) sig

  module _ (get : ℕ → Option (RandomData)) (start : ℕ → Bytes → Type 0) where
    load-IsTrusted :
        (n r : ℕ) (previous sig : Bytes) (next last : Option RandomData)
        → IsTrusted start r previous
        → load k get info n r previous next ≡ ok (sig, last)
        → IsTrusted start (r + n) sig
    unfolding load
    load-IsTrusted zero r previous sig next last t e =
        let same : previous ≡ sig = cc in
        let here : r ≡ r + 0 = omega arith in
        subst (λ x. IsTrusted start x sig) here (subst (IsTrusted start r) same t)
    load-IsTrusted (suc n) r previous sig next last t e = elim (Option-cases (get (r + 1))) [
      | inl missing ↦
          let failed : load k get info (suc n) r previous next ≡ err could_not_get =
            rw (missing, load) refl in
          cc
      | inr (d, got) ↦
          elim (Bool-cases (verify_beacon k info.public_key (beacon_of k (r + 1) previous d.sig))) [
            | inr bad ↦
                let failed : load k get info (suc n) r previous next ≡ err invalid_beacon =
                  rw (got, bad, load) refl in
                cc
            | inl good ↦
                let step : load k get info (suc n) r previous next
                    ≡ load k get info n (r + 1) d.sig (some d) =
                  rw (got, good, load) refl in
                let further : r + 1 + n ≡ r + suc n = omega arith in
                subst (λ x. IsTrusted start x sig) further
                  (load-IsTrusted n (r + 1) d.sig sig (some d) last (link t good) (sym step ∙ e))
          ]
    ]

    pub settle-inv :
        (v : VerifyingClient) (m : Result VerifyError (Bytes × Option RandomData)) (sig : Bytes)
        → (settle k get v m).0 ≡ ok sig
        → (last : Option RandomData) × (m ≡ ok (sig, last))
    unfolding settle
    settle-inv v (err e) sig h = cc
    settle-inv v (ok (s, none)) sig h = (none, cc)
    settle-inv v (ok (s, some next)) sig h = (some next, cc)

    trust_up_to-IsTrusted :
        (v : VerifyingClient) (target r : ℕ) (previous sig : Bytes)
        → IsTrusted start r previous
        → (trust_up_to k get v info target (r, previous)).0 ≡ ok sig
        → IsTrusted start target sig
    unfolding trust_up_to
    trust_up_to-IsTrusted v target r previous sig t h = elim (Bool-cases (ltb target r)) [
      | inl past ↦
          let failed : (trust_up_to k get v info target (r, previous)).0
              ≡ err unexpected_trust_round =
            rw past refl in
          cc
      | inr ahead ↦
          let loop : (trust_up_to k get v info target (r, previous)).0
              ≡ (settle k get v (load k get info (target - r) r previous none)).0 =
            rw ahead refl in
          let (last, loaded) =
            settle-inv v (load k get info (target - r) r previous none) sig (sym loop ∙ h) in
          let reached : r + (target - r) ≡ target = ground arith in
          subst (λ x. IsTrusted start x sig) reached
            (load-IsTrusted (target - r) r previous sig none last t loaded)
    ]

  -- What a client takes for granted: the group hash before the first round, which it also takes for the
  -- signature of round 1, and its point of trust.
  abbrev pub IsStart : VerifyingClient → ℕ → Bytes → Type 0
  IsStart v r sig =
      ((r ≤ 1) × (sig ≡ info.group_hash))
      ⊎ ((p : RandomData) × (v.point_of_trust ≡ some p) × (r ≡ p.rnd) × (sig ≡ p.sig))

  module _ (get : ℕ → Option RandomData) where
    trust_from-IsStart :
        (v : VerifyingClient) (o : Option RandomData) (round : ℕ)
        → v.point_of_trust ≡ o
        → let t = trust_from k get info o round in IsStart v t.0 t.1
    unfolding trust_from
    trust_from-IsStart v none round e = inl (omega arith, refl)
    trust_from-IsStart v (some p) round e = elim (Bool-cases (ltb round p.rnd)) [
      | inl before ↦ rw before (inl (omega arith, refl))
      | inr after ↦ rw after (inr (p, e, refl, refl))
    ]

    previous_signature-IsTrusted :
        (v : VerifyingClient) (round : ℕ) (sig : Bytes)
        → (get_trusted_previous_signature k get v info round).0 ≡ ok sig
        → IsTrusted (IsStart v) ((round + (2 ^ 64 - 1)) % 2 ^ 64) sig
    unfolding get_trusted_previous_signature
    previous_signature-IsTrusted v round sig h = elim (Bool-cases (round == 1)) [
      | inl first ↦
          let hash : (get_trusted_previous_signature k get v info round).0 ≡ ok info.group_hash =
            rw first refl in
          anchor (inl (ground arith, cc))
      | inr later ↦
          let t = trust_from k get info v.point_of_trust round in
          let target = (round + (2 ^ 64 - 1)) % 2 ^ 64 in
          let step : (get_trusted_previous_signature k get v info round).0
              ≡ (trust_up_to k get v info target t).0 =
            rw later refl in
          trust_up_to-IsTrusted get (IsStart v) v target t.0 t.1 sig
            (anchor (trust_from-IsStart v v.point_of_trust round refl)) (sym step ∙ h)
    ]

    pub verify_upon-inv :
        (r rd : RandomData) (m : Result VerifyError Bytes × VerifyingClient)
        → (verify_upon k get info r m).0 ≡ ok rd
        → (ps : Bytes) × (m.0 ≡ ok ps)
          × (verify_beacon k info.public_key (beacon_of k r.rnd ps r.sig) ≡ true)
          × (rd ≡ record r { random = randomness_from_signature k r.sig })
    unfolding verify_upon
    verify_upon-inv r rd (err e, v) h = cc
    verify_upon-inv r rd (ok ps, v) h =
        elim (Bool-cases (verify_beacon k info.public_key (beacon_of k r.rnd ps r.sig))) [
          | inr bad ↦
              let failed : (verify_upon k get info r (ok ps, v)).0 ≡ err invalid_beacon =
                rw bad refl in
              cc
          | inl good ↦
              let done : (verify_upon k get info r (ok ps, v)).0
                  ≡ ok (record r { random = randomness_from_signature k r.sig }) =
                rw good refl in
              (ps, refl, good, cc)
        ]

    pub previous_for-strict :
        (v : VerifyingClient) (r : RandomData) (o : Option Bytes)
        → v.strict ≡ true
        → previous_for k get v info r o ≡ get_trusted_previous_signature k get v info r.rnd
    unfolding previous_for
    previous_for-strict v r none strict = refl
    previous_for-strict v r (some ps) strict = rw (strict, previous_for) refl

    -- A result that a strict client returns for what it fetched keeps the round and the signature, has
    -- the hash of the signature as its randomness, and its signature verifies upon a previous one that a
    -- chain of verified signatures joins to what the client takes for granted.
    pub get_result-IsTrusted :
        (v : VerifyingClient) (r rd : RandomData)
        → v.strict ≡ true
        → (get_result k get v (some info) (some r)).0 ≡ ok rd
        → (ps : Bytes) × IsTrusted (IsStart v) ((r.rnd + (2 ^ 64 - 1)) % 2 ^ 64) ps
          × (verify_beacon k info.public_key (beacon_of k r.rnd ps r.sig) ≡ true)
          × (rd ≡ record r { random = randomness_from_signature k r.sig })
    unfolding get_result verify_result
    get_result-IsTrusted v r rd strict h =
        let (ps, previous, good, same) =
          verify_upon-inv r rd (previous_for k get v info r r.previous_signature) h in
        (
          ps,
          previous_signature-IsTrusted v r.rnd ps (
              sym (ap (λ t. t.0) (previous_for-strict v r r.previous_signature strict)) ∙ previous),
          good,
          same,
        )
