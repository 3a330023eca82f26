-- ===== src/Beacon/Handler/Rounds.antt =====
-- chain/beacon/node.go: the handler and the clock, and the move to a new group.
use drand.Prelude.{
  ℕ, ◌+◌, ◌-◌, ◌/◌, ◌^◌, ◌≡◌, ◌≢◌, ◌<◌, ◌≤◌, refl, ap, inl, inr, ◌∙◌, true, false, none, some, List,
  [], ◌∷◌, ltb, leb, if◌then◌else◌, Bytes, arith, any, length, Bool-cases,
}
use native.Mathlib.Nat.{div-mul-le_self, lt-div-mul-add, mul-le-mul_right}
use native.Mathlib.Decide.{dec_le}
use drand.Prelude.Int.{pos}
use drand.Chain.Block.{Beacon}
use drand.Chain.Crypto.{Crypto}
use drand.Chain.Time.{next_round, current_round}
use drand.Chain.Time.Rounds.{seconds, current_round_lem, next_round_lem}
use drand.Store.{Store}
use drand.Beacon.Cache.{PartialBeaconPacket}
use drand.Beacon.Aggregator.{set_info}
use drand.Beacon.Handler.{
  invalid_future_round, Handler, NewGroup, process_partial_beacon, switch_at, on_transition,
}

module _ (S : Store) (k : Crypto) where
  -- Clocks may differ by a period: a partial for the current round of a sender, whose clock shows `n'`,
  -- is never of a future round to a receiver whose clock shows `n`, at most one period behind. The
  -- group's period is a positive whole number of seconds below 2 ^ 34, both clocks stand at genesis or
  -- later and below 2 ^ 53.
  pub process_partial_beacon-drift :
      (h : Handler S k) (s g n n' : ℕ) (addr : Bytes) (p : PartialBeaconPacket)
      → h.period ≡ seconds s
      → h.genesis_time ≡ pos g
      → 0 < s
      → s < 2 ^ 34
      → g ≤ n
      → n < 2 ^ 53
      → g ≤ n'
      → n' ≤ n + s
      → p.round ≤ current_round (pos n') (seconds s) (pos g)
      → (process_partial_beacon S k h (pos n) addr p).1 ≢ some invalid_future_round
  unfolding process_partial_beacon
  process_partial_beacon-drift h s g n n' addr p period genesis moves short past small past' near
        known =
      let next : (next_round (pos n) h.period h.genesis_time).0 ≡ (n - g) / s + 2 =
        ap (λ t. (next_round (pos n) t h.genesis_time).0) period
        ∙ ap (λ t. (next_round (pos n) (seconds s) t).0) genesis
        ∙ ap (λ t. t.0) (next_round_lem s g moves short n past (omega arith)) in
      let current = current_round_lem s g moves short n' past' (omega arith) in
      let close : (n' - g) / s ≤ (n - g) / s + 1 = elim (dec_le ((n' - g) / s) ((n - g) / s + 1)) [
        | yes fine ↦ fine
        | no over ↦
            let low = div-mul-le_self (n' - g) s in
            let high = lt-div-mul-add {a = n - g} moves in
            let grown = mul-le-mul_right {m = (n - g) / s + 2} {n = (n' - g) / s} s (omega arith) in
            absurd (omega arith)
      ] in
      λ e. ground arith

  -- The beacons that are stored go to the callback in their order.
  unfoldable pub on_transitions : List Beacon → Handler S k → Handler S k
  on_transitions [] h = h
  on_transitions (b ∷ bs) h = on_transitions bs (on_transition S k h b)

  switched :
      (bs : List Beacon) (h : Handler S k)
      → h.transition ≡ none
      → (on_transitions bs h).chain.crypto ≡ h.chain.crypto
  unfolding on_transitions on_transition switch_at
  switched [] h e = refl
  switched (b ∷ bs) h e =
      let same : on_transition S k h b ≡ h = ap (switch_at S k h b) e in
      ap (λ t. (on_transitions bs t).chain.crypto) same ∙ switched bs h e

  -- With a transition to a new group pending at a round, whatever beacons are stored next: the keys are
  -- those of the new group once a beacon of that round or a later one is stored, and unchanged before.
  pub on_transitions-crypto :
      (bs : List Beacon) (h : Handler S k) (round : ℕ) (g : NewGroup S k)
      → h.transition ≡ some (round, g)
      → (on_transitions bs h).chain.crypto ≡ (
          if any (λ (b : Beacon). leb round b.round) bs
          then set_info k h.chain.crypto g.poly g.threshold (length g.addresses) g.share
          else h.chain.crypto)
  unfolding on_transitions on_transition switch_at
  on_transitions-crypto [] h round g e = refl
  on_transitions-crypto (b ∷ bs) h round g e =
      let step : on_transition S k h b ≡ switch_at S k h b (some (round, g)) =
        ap (switch_at S k h b) e in
      ap (λ t. (on_transitions bs t).chain.crypto) step ∙ elim (Bool-cases (ltb b.round round)) [
        | inl before ↦
            let later : leb round b.round ≡ false = ground arith in
            rw (before, later) (on_transitions-crypto bs h round g e)
        | inr reached ↦
            let later : leb round b.round ≡ true = ground arith in
            rw (reached, later) (switched bs _ refl)
      ]
