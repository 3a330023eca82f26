-- ===== src/Core/Setup/Begun.antt =====
-- core/group_setup.go: the keys of the manager of a setup, from newDKGSetup or newReshareSetup on.
use drand.Prelude.{
  ℕ, ◌≡◌, ◌<◌, ◌%◌, ◌^◌, length, refl, sym, ap, subst, true, none, [], ◌∷◌, List, not,
  if◌then◌else◌, arith, Result, ok, Bytes, Result-cases, inl, inr,
}
use drand.Chain.Time.{whole_seconds}
use drand.Key.Suite.{Suite}
use drand.Key.Identity.{Identity}
use drand.Key.Group.{Group}
use drand.Core.Setup.{
  SetupError, SetupInfoPacket, SetupManager, InitResharePacket, valid_init_packet, manager_of,
  new_dkg_setup, reshare_of, new_reshare_setup,
}
use drand.Core.Setup.Keys.{IsDistinct, IsCollecting, add_keys, add_keys-IsCollecting}

valid_init_packet-ok :
    (p : SetupInfoPacket) (checked : ℕ × ℕ × ℕ)
    → valid_init_packet p ≡ ok checked
    → (checked.0 ≡ p.nodes) × (checked.1 ≡ p.threshold)
unfolding valid_init_packet
valid_init_packet-ok p checked e = ground arith

module _ (K : Suite) (sha256 : Bytes → Bytes) where
  ok_inj :
      {s t : SetupManager K} → ◌≡◌ {A = Result SetupError (SetupManager K)} (ok s) (ok t) → s ≡ t
  ok_inj e = cc

  -- What a manager begins with, the key of its leader
  record IsFresh (p : SetupInfoPacket) (s : SetupManager K) : Type 0 where
    expected : s.expected ≡ p.nodes
    threshold : s.thr ≡ p.threshold
    leader : Identity K
    keys : s.in_keys ≡ leader ∷ []
    running : s.running ≡ true
    nothing : s.start_dkg ≡ none

  new_dkg_setup-IsFresh :
      (leader : Identity K) (period catchup : ℕ) (p : SetupInfoPacket) (s : SetupManager K)
      → new_dkg_setup K sha256 leader period catchup p ≡ ok s
      → IsFresh p s
  unfolding new_dkg_setup manager_of
  new_dkg_setup-IsFresh leader period catchup p s = elim (Result-cases (valid_init_packet p)) [
    | inr (e, bad) ↦ rw (bad, new_dkg_setup) (λ h. cc)
    | inl (checked, fine) ↦
        let (nodes, threshold) = valid_init_packet-ok p checked fine in
        rw (fine, new_dkg_setup)
          (λ h. subst (IsFresh p) (ok_inj h) (record {
            expected = nodes;
            threshold = threshold;
            leader = leader;
            keys = refl;
            running = refl;
            nothing = refl;
          }))
  ]

  new_reshare_setup-IsFresh :
      (leader : Identity K) (old : Group K) (q : InitResharePacket) (s : SetupManager K)
      → new_reshare_setup K sha256 leader old q ≡ ok s
      → IsFresh q.info s
  unfolding new_reshare_setup reshare_of
  new_reshare_setup-IsFresh leader old q s =
      let period = whole_seconds old.period % 2 ^ 32 in
      let catchup =
        if not q.catchup_period_changed
        then whole_seconds old.catchup_period % 2 ^ 32
        else q.catchup_period in
      let made = new_dkg_setup K sha256 leader period catchup q.info in
      elim (Result-cases made) [
        | inr (e, bad) ↦ rw (bad, reshare_of) (λ h. cc)
        | inl (sm, fine) ↦
            let f = new_dkg_setup-IsFresh leader period catchup q.info sm fine in
            rw (fine, reshare_of)
              (λ h. subst (IsFresh q.info) (ok_inj h) (record {
                expected = f.expected;
                threshold = f.threshold;
                leader = f.leader;
                keys = f.keys;
                running = f.running;
                nothing = f.nothing;
              }))
      ]

  IsFresh-IsCollecting :
      (p : SetupInfoPacket) (s : SetupManager K)
      → 1 < p.nodes
      → IsFresh p s
      → IsCollecting K p.nodes p.threshold s
  IsFresh-IsCollecting p s many f =
      let one : length s.in_keys ≡ 1 = ap length f.keys in
      record {
        expected = f.expected;
        threshold = f.threshold;
        distinct = subst (IsDistinct K) (sym f.keys) (tt, tt);
        bound = omega arith;
        complete = λ e. cc;
        unfinished = λ e. omega arith;
        sized = λ g e. cc;
      }

  -- A manager that newDKGSetup makes from the packet of a setup, or newReshareSetup of a resharing
  pub data IsBegun (p : SetupInfoPacket) (s : SetupManager K) : Type 0 where
    begun_dkg :
        (leader : Identity K) (period catchup : ℕ)
        → new_dkg_setup K sha256 leader period catchup p ≡ ok s
        → IsBegun p s
    begun_reshare :
        (leader : Identity K) (old : Group K) (q : InitResharePacket)
        → q.info ≡ p
        → new_reshare_setup K sha256 leader old q ≡ ok s
        → IsBegun p s

  IsBegun-IsFresh : (p : SetupInfoPacket) (s : SetupManager K) → IsBegun p s → IsFresh p s
  IsBegun-IsFresh p s (begun_dkg leader period catchup made) =
      new_dkg_setup-IsFresh leader period catchup p s made
  IsBegun-IsFresh p s (begun_reshare leader old q same made) =
      subst (λ i. IsFresh i s) same (new_reshare_setup-IsFresh leader old q s made)

  -- In a setup or a resharing of two or more nodes, whatever keys arrive, with repetitions and in any
  -- order: the leader holds identities that differ in address and key, never more than the packet asks
  -- for, and it stops with as many; a group that it makes has as many nodes as the packet asks for, and
  -- its threshold. (In a group of one the leader, which holds its own key from the start, never stops.)
  pub begun-IsCollecting :
      (p : SetupInfoPacket) (s : SetupManager K) (pks : List (ℕ × Identity K))
      → 1 < p.nodes
      → IsBegun p s
      → IsCollecting K p.nodes p.threshold (add_keys K s pks)
  begun-IsCollecting p s pks many begun =
      let f = IsBegun-IsFresh p s begun in
      add_keys-IsCollecting K p.nodes p.threshold s pks (λ _. f.nothing)
        (IsFresh-IsCollecting p s many f)
