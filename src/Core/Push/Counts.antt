-- ===== src/Core/Push/Counts.antt =====
-- core/drand_control.go: the push of a group succeeds exactly when enough nodes acknowledged it.
use drand.Prelude.{
  ℕ, zero, suc, ◌+◌, ◌-◌, ◌≡◌, ◌≤◌, ◌↔◌, refl, Bool, true, false, not, ◌&&◌, ◌||◌, Option, some,
  List, [], ◌∷◌, length, if◌then◌else◌, Bytes, arith, Bool-cases, inl, inr,
}
use drand.Prelude.Int.{ℤ, pos, pos_part, neg_part, -ℤ_parts}
use drand.Key.Suite.{Suite}
use drand.Key.Node.{Node}
use drand.Key.Group.{Group, group_hash}
use drand.Core.Push.{
  PushEvent, replied, minute, succeeded, group_failure, group_timeout, is_positive,
  nodes_contain_addr, node_union, less_if, collect, push_signed, push_group,
}

-- Who acknowledged the group before all replies had come, or the minute was over.
abbrev pub acknowledged : ℕ → List PushEvent → List Bytes
acknowledged zero events = []
acknowledged (suc total) [] = []
acknowledged (suc total) (minute ∷ events) = []
acknowledged (suc total) (replied addr false ∷ events) = acknowledged total events
acknowledged (suc total) (replied addr true ∷ events) = addr ∷ acknowledged total events

-- Whether all replies came, or the minute was over.
abbrev pub is_complete : ℕ → List PushEvent → Bool
is_complete zero events = true
is_complete (suc total) [] = false
is_complete (suc total) (minute ∷ events) = true
is_complete (suc total) (replied addr well ∷ events) = is_complete total events

not_positive : (z : ℤ) → (is_positive z ≡ false) ↔ (pos_part z ≤ neg_part z)
not_positive z = (λ h. ground arith, λ h. ground arith)

no_failure :
    (b c : Bool)
    → ((if b || c then group_failure else succeeded) ≡ succeeded) ↔ ((b ≡ false) × (c ≡ false))
no_failure true c = (λ h. cc, λ h. cc)
no_failure false true = (λ h. cc, λ h. cc)
no_failure false false = (λ h. (refl, refl), λ h. refl)

no_timeout :
    (b c : Bool)
    → ((if not b && not c then succeeded else group_timeout) ≡ succeeded)
      ↔ ((b ≡ false) × (c ≡ false))
no_timeout true c = (λ h. cc, λ h. cc)
no_timeout false true = (λ h. cc, λ h. cc)
no_timeout false false = (λ h. (refl, refl), λ h. refl)

module _ (K : Suite) where
  -- How many of the addresses are in a group.
  abbrev pub counted : List (Node K) → List Bytes → ℕ
  counted nodes [] = 0
  counted nodes (addr ∷ addrs) =
      (if nodes_contain_addr K nodes addr then 1 else 0) + counted nodes addrs

  less_if-parts :
      (nodes : List (Node K)) (addr : Bytes) (z : ℤ)
      → pos_part (less_if K nodes addr z) + counted nodes (addr ∷ []) + neg_part z
        ≡ pos_part z + neg_part (less_if K nodes addr z)
  less_if-parts nodes addr z = elim (Bool-cases (nodes_contain_addr K nodes addr)) [
    | inl inside ↦ let parts = -ℤ_parts z (pos 1) in rw inside (omega arith)
    | inr outside ↦ rw outside (omega arith)
  ]

  -- The thresholds that are left are met by those that still acknowledge.
  abbrev IsMet : List (Node K) → ℤ → List Bytes → Type 0
  IsMet nodes left addrs = pos_part left ≤ neg_part left + counted nodes addrs

  IsMet-nobody : (nodes : List (Node K)) (z : ℤ) → (is_positive z ≡ false) ↔ IsMet nodes z []
  IsMet-nobody nodes z =
      (λ h. let le = (not_positive z).0 h in omega arith, λ h. (not_positive z).1 (omega arith))

  IsMet-cons :
      (nodes : List (Node K)) (addr : Bytes) (addrs : List Bytes) (z : ℤ)
      → IsMet nodes (less_if K nodes addr z) addrs ↔ IsMet nodes z (addr ∷ addrs)
  IsMet-cons nodes addr addrs z =
      let parts = less_if-parts nodes addr z in (λ h. omega arith, λ h. omega arith)

  collect_iff :
      (outgoing incoming : List (Node K)) (total : ℕ) (previous new : ℤ) (events : List PushEvent)
      → (collect K outgoing incoming total previous new events ≡ succeeded) ↔ (
          (is_complete total events ≡ true)
          × IsMet outgoing previous (acknowledged total events)
          × IsMet incoming new (acknowledged total events))
  unfolding collect
  collect_iff outgoing incoming zero previous new events =
      let settled = no_failure (is_positive previous) (is_positive new) in
      let old = IsMet-nobody outgoing previous in
      let next = IsMet-nobody incoming new in
      (
        λ h. let (a, b) = settled.0 h in (refl, old.0 a, next.0 b),
        λ h. let (a, b, c) = h in settled.1 (old.1 b, next.1 c),
      )
  collect_iff outgoing incoming (suc total) previous new [] = (λ h. cc, λ h. cc)
  collect_iff outgoing incoming (suc total) previous new (minute ∷ events) =
      let settled = no_timeout (is_positive previous) (is_positive new) in
      let old = IsMet-nobody outgoing previous in
      let next = IsMet-nobody incoming new in
      (
        λ h. let (a, b) = settled.0 h in (refl, old.0 a, next.0 b),
        λ h. let (a, b, c) = h in settled.1 (old.1 b, next.1 c),
      )
  collect_iff outgoing incoming (suc total) previous new (replied addr false ∷ events) =
      collect_iff outgoing incoming total previous new events
  collect_iff outgoing incoming (suc total) previous new (replied addr true ∷ events) =
      let rest =
        collect_iff outgoing incoming total (less_if K outgoing addr previous)
          (less_if K incoming addr new) events in
      let old = IsMet-cons outgoing addr (acknowledged total events) previous in
      let next = IsMet-cons incoming addr (acknowledged total events) new in
      (
        λ h. let (a, b, c) = rest.0 h in (a, old.0 b, next.0 c),
        λ h. let (a, b, c) = h in rest.1 (a, old.1 b, next.1 c),
      )

  -- The push of a signed group succeeds exactly when, all replies in or a minute over, a threshold of the
  -- old group and one of the new group acknowledged it, the leader counted where it is a member.
  pub push_group_iff :
      (dkg_sign : Bytes → Option Bytes) (own : Bytes) (outgoing incoming : List (Node K))
      (previous : ℕ) (group : Group K) (secret : Bytes) (timeout : ℕ) (events : List PushEvent)
      (signature : Bytes)
      → dkg_sign (group_hash K group).0 ≡ some signature
      → let total = length (node_union K outgoing incoming) - 1 in
        let acks = own ∷ acknowledged total events in
        ((push_group K dkg_sign own outgoing incoming previous group secret timeout events).1
          ≡ succeeded)
        ↔ ((is_complete total events ≡ true)
            × (previous ≤ counted outgoing acks)
            × (group.threshold ≤ counted incoming acks))
  unfolding push_group push_signed
  push_group_iff dkg_sign own outgoing incoming previous group secret timeout events signature
        signed =
      let total = length (node_union K outgoing incoming) - 1 in
      let acks = acknowledged total events in
      let loop =
        collect_iff outgoing incoming total (less_if K outgoing own (pos previous))
          (less_if K incoming own (pos group.threshold)) events in
      let old = IsMet-cons outgoing own acks (pos previous) in
      let next = IsMet-cons incoming own acks (pos group.threshold) in
      rw signed (
        λ h.
            let (a, b, c) = loop.0 h in
            let met = old.0 b in let met' = next.0 c in (a, omega arith, omega arith),
        λ h. let (a, b, c) = h in loop.1 (a, old.1 (omega arith), next.1 (omega arith)),
      )
