-- ===== src/Client/Verify/Strict.antt =====
-- client/verify.go: which results a strict client can return, from a point of trust and without one.
use drand.Prelude.{
  ℕ, zero, suc, ◌+◌, ◌-◌, ◌%◌, ◌^◌, ◌≡◌, ◌≢◌, ◌≤◌, ◌<◌, refl, sym, ap, subst, ◌∙◌, true, false,
  Option, none, some, ltb, ◌==◌, Result, ok, err, Bytes, arith, Option-cases, inl, inr,
}
use native.Mathlib.Decide.{dec_le}
use drand.Client.Verify.Trust.{settle-inv, verify_upon-inv, previous_for-strict}
use drand.Chain.Block.{verify_beacon}
use drand.Chain.Crypto.{Crypto}
use drand.Client.Verify.{
  RandomData, VerifyError, could_not_get, invalid_beacon, VerifyingClient, Info, beacon_of, load,
  trust_from, settle, trust_up_to, get_trusted_previous_signature, previous_for, verify_result,
  get_result,
}

module _ (k : Crypto) (info : Info k) (get : ℕ → Option RandomData) where
  -- The indirect client has the signature of each round from `r` on, verified upon the one before, for
  -- `n` rounds; `sig_of` gives the signatures.
  abbrev pub IsServed : (ℕ → Bytes) → ℕ → ℕ → Type 0
  IsServed sig_of r zero = Unit
  IsServed sig_of r (suc n) =
      ((d : RandomData) × (get (r + 1) ≡ some d)
        × (d.sig ≡ sig_of (r + 1))
        × (verify_beacon k info.public_key (beacon_of k (r + 1) (sig_of r) d.sig) ≡ true))
      × IsServed sig_of (r + 1) n

  load-served :
      (sig_of : ℕ → Bytes) (n r : ℕ) (next : Option RandomData)
      → IsServed sig_of r n
      → (last : Option RandomData) × (load k get info n r (sig_of r) next
          ≡ ok (sig_of (r + n), last))
  unfolding load
  load-served sig_of zero r next served = (next, ap (λ x. ok (sig_of x, next)) (omega arith))
  load-served sig_of (suc n) r next ((d, got, same, good), more) =
      let (last, done) = load-served sig_of n (r + 1) (some d) more in
      let further : r + 1 + n ≡ r + suc n = omega arith in
      (
        last,
        rw (got, good, load)
            (ap (λ s. load k get info n (r + 1) s (some d)) same
              ∙ done
              ∙ ap (λ x. ok (sig_of x, last)) further),
      )

  settle-ok :
      (v : VerifyingClient) (m : Result VerifyError (Bytes × Option RandomData)) (sig : Bytes)
      (last : Option RandomData)
      → m ≡ ok (sig, last)
      → (settle k get v m).0 ≡ ok sig
  unfolding settle
  settle-ok v (err e) sig last h = cc
  settle-ok v (ok (s, none)) sig last h = cc
  settle-ok v (ok (s, some next)) sig last h = cc

  -- With a point of trust below the round, whose signature is that of the chain, and an indirect client
  -- that has the verified rounds from there to the one before: the previous signature that is trusted
  -- is that of the chain. The round is a uint64 after the first.
  pub get_trusted-served :
      (v : VerifyingClient) (p : RandomData) (sig_of : ℕ → Bytes) (n : ℕ)
      → v.point_of_trust ≡ some p
      → p.sig ≡ sig_of p.rnd
      → 0 < p.rnd
      → p.rnd + n + 1 < 2 ^ 64
      → IsServed sig_of p.rnd n
      → (get_trusted_previous_signature k get v info (p.rnd + n + 1)).0 ≡ ok (sig_of (p.rnd + n))
  unfolding get_trusted_previous_signature trust_up_to trust_from
  get_trusted-served v p sig_of n trusted same room fits served =
      let (last, done) = load-served sig_of n p.rnd none served in
      let later : (p.rnd + n + 1 == 1) ≡ false = ground arith in
      let target : (p.rnd + n + 1 + (2 ^ 64 - 1)) % 2 ^ 64 ≡ p.rnd + n = omega arith in
      let from : trust_from k get info v.point_of_trust (p.rnd + n + 1) ≡ (p.rnd, p.sig) =
        ap (λ o. trust_from k get info o (p.rnd + n + 1)) trusted ∙ ground arith in
      let ahead : ltb (p.rnd + n) p.rnd ≡ false = ground arith in
      let steps : p.rnd + n - p.rnd ≡ n = omega arith in
      let loaded : load k get info (p.rnd + n - p.rnd) p.rnd p.sig none
          ≡ ok (sig_of (p.rnd + n), last) =
        rw (steps, same) done in
      let start : (get_trusted_previous_signature k get v info (p.rnd + n + 1)).0
          ≡ (trust_up_to k get v info ((p.rnd + n + 1 + (2 ^ 64 - 1)) % 2 ^ 64)
              (trust_from k get info v.point_of_trust (p.rnd + n + 1))).0 =
        rw (later, get_trusted_previous_signature) refl in
      let next : (trust_up_to k get v info (p.rnd + n) (p.rnd, p.sig)).0
          ≡ (settle k get v (load k get info (p.rnd + n - p.rnd) p.rnd p.sig none)).0 =
        rw (ahead, trust_up_to) refl in
      start
      ∙ ap
          (λ t.
            (trust_up_to k get v info t (trust_from k get info v.point_of_trust (p.rnd + n + 1))).0)
          target
      ∙ ap (λ t. (trust_up_to k get v info (p.rnd + n) t).0) from
      ∙ next
      ∙ settle-ok v (load k get info (p.rnd + n - p.rnd) p.rnd p.sig none) (sig_of (p.rnd + n)) last
          loaded

  settled :
      (ps : Bytes) (last : Option RandomData)
      → load k get info 0 1 info.group_hash none ≡ ok (ps, last)
      → ps ≡ info.group_hash
  unfolding load
  settled ps last h = cc

  load_refused :
      (m : ℕ) (x : Bytes × Option RandomData)
      → ((d : RandomData)
          → (get 2 ≡ some d)
          → verify_beacon k info.public_key (beacon_of k 2 info.group_hash d.sig) ≡ false)
      → load k get info (suc m) 1 info.group_hash none ≢ ok x
  unfolding load
  load_refused m x refused h = elim (Option-cases (get 2)) [
    | inl missing ↦
        let failed : load k get info (suc m) 1 info.group_hash none ≡ err could_not_get =
          rw (missing, load) refl in
        cc
    | inr (d, got) ↦
        let bad = refused d got in
        let failed : load k get info (suc m) 1 info.group_hash none ≡ err invalid_beacon =
          rw (got, bad, load) refl in
        cc
  ]

  -- Without a point of trust, what is trusted before a round after the first is the group hash, for
  -- round 2, and nothing for the rounds after it.
  untrusted :
      (v : VerifyingClient) (round : ℕ) (ps : Bytes)
      → v.point_of_trust ≡ none
      → 2 ≤ round
      → round < 2 ^ 64
      → ((d : RandomData)
          → (get 2 ≡ some d)
          → verify_beacon k info.public_key (beacon_of k 2 info.group_hash d.sig) ≡ false)
      → (get_trusted_previous_signature k get v info round).0 ≡ ok ps
      → (round ≡ 2) × (ps ≡ info.group_hash)
  unfolding get_trusted_previous_signature trust_up_to trust_from
  untrusted v round ps none_yet h room refused done =
      let later : (round == 1) ≡ false = ground arith in
      let target : (round + (2 ^ 64 - 1)) % 2 ^ 64 ≡ round - 1 = omega arith in
      let from : trust_from k get info v.point_of_trust round ≡ (1, info.group_hash) =
        ap (λ o. trust_from k get info o round) none_yet in
      let ahead : ltb (round - 1) 1 ≡ false = ground arith in
      let start : (get_trusted_previous_signature k get v info round).0
          ≡ (trust_up_to k get v info ((round + (2 ^ 64 - 1)) % 2 ^ 64)
              (trust_from k get info v.point_of_trust round)).0 =
        rw (later, get_trusted_previous_signature) refl in
      let next : (trust_up_to k get v info (round - 1) (1, info.group_hash)).0
          ≡ (settle k get v (load k get info (round - 1 - 1) 1 info.group_hash none)).0 =
        rw (ahead, trust_up_to) refl in
      let all =
        start
        ∙ ap (λ t. (trust_up_to k get v info t (trust_from k get info v.point_of_trust round)).0)
            target
        ∙ ap (λ t. (trust_up_to k get v info (round - 1) t).0) from
        ∙ next in
      let (last, loaded) =
        settle-inv k info get (λ _ _. Unit) v
          (load k get info (round - 1 - 1) 1 info.group_hash none) ps (sym all ∙ done) in
      elim (dec_le round 2) [
        | yes low ↦
            let two : round - 1 - 1 ≡ 0 = omega arith in
            let unloaded : load k get info 0 1 info.group_hash none ≡ ok (ps, last) =
              subst (λ n. load k get info n 1 info.group_hash none ≡ ok (ps, last)) two loaded in
            (omega arith, settled ps last unloaded)
        | no high ↦
            let more : round - 1 - 1 ≡ suc (round - 3) = omega arith in
            absurd (
              load_refused (round - 3) (ps, last) refused
                (subst (λ n. load k get info n 1 info.group_hash none ≡ ok (ps, last)) more loaded))
      ]

  -- Without a point of trust, a strict client cannot return the result of any round after the first
  -- where the group hash, taken for the signature of round 1, is not what round 2 was signed upon.
  pub get_result-untrusted :
      (v : VerifyingClient) (r rd : RandomData)
      → v.strict ≡ true
      → v.point_of_trust ≡ none
      → 2 ≤ r.rnd
      → r.rnd < 2 ^ 64
      → ((d : RandomData)
          → (get 2 ≡ some d)
          → verify_beacon k info.public_key (beacon_of k 2 info.group_hash d.sig) ≡ false)
      → (r.rnd ≡ 2 → verify_beacon k info.public_key (beacon_of k 2 info.group_hash r.sig) ≡ false)
      → (get_result k get v (some info) (some r)).0 ≢ ok rd
  unfolding get_result verify_result
  get_result-untrusted v r rd strict none_yet h room refused refused' done =
      let (ps, previous, good, _) =
        verify_upon-inv k info get r rd (previous_for k get v info r r.previous_signature) done in
      let trusted =
        sym (ap (λ t. t.0) (previous_for-strict k info get v r r.previous_signature strict))
        ∙ previous in
      let (two, hash) = untrusted v r.rnd ps none_yet h room refused trusted in
      let bad = refused' two in
      let good' : verify_beacon k info.public_key (beacon_of k 2 info.group_hash r.sig) ≡ true =
        subst (λ n. verify_beacon k info.public_key (beacon_of k n info.group_hash r.sig) ≡ true)
          two
          (subst (λ s. verify_beacon k info.public_key (beacon_of k r.rnd s r.sig) ≡ true) hash
            good) in
      cc
