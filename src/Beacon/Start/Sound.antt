-- ===== src/Beacon/Start/Sound.antt =====
-- NewHandler of chain/beacon/node.go: on a new database and on one that is opened again, a handler starts
-- with a sound chain.
use drand.Prelude.{
  ℕ, ◌+◌, ◌≡◌, ◌≤◌, ◌⊎◌, refl, sym, ◌∙◌, subst, inl, inr, ◌==◌, if◌then◌else◌, ok, err, Bytes,
  arith, Bool-cases,
}
use drand.Chain.Block.{Beacon, genesis_beacon}
use drand.Chain.Crypto.{Crypto}
use drand.Store.{Store, StoreError, OrderedStore, IsRound}
use drand.Beacon.Append.Linked.{IsLinked}
use drand.Beacon.Append.Verified.{IsVerified}

module _ (O : OrderedStore) (k : Crypto) (pubkey : k.Point) (seed : Bytes) where
  abbrev S : Store
  S = O.base

  -- A chain of this group: it starts with the genesis beacon, its last beacon is `l`, and it is linked up
  -- to it and verifies.
  pub record IsChain (s : O.base.State) (l : Beacon) : Type 0 where
    pub stored : O.base.last s ≡ ok l
    pub first : O.base.get s 0 ≡ ok (genesis_beacon seed)
    pub linked : IsLinked O.base s l.round
    pub verified : IsVerified O.base k pubkey s

  -- A valid database, either empty, where the chain is to start at the genesis beacon, or with a chain
  abbrev pub IsStartable : O.base.State → Beacon → Type 0
  IsStartable s l =
      O.base.IsValid s
      × (((e : StoreError) × (O.base.last s ≡ err e) × (l ≡ genesis_beacon seed)) ⊎ IsChain s l)

  genesis_round : (genesis_beacon seed).round ≡ 0
  unfolding genesis_beacon
  genesis_round = refl

  read_after :
      (s s' : O.base.State) (r : ℕ)
      → O.base.IsValid s
      → IsRound r
      → O.base.put s (genesis_beacon seed) ≡ ok s'
      → O.base.get s' r ≡ (if 0 == r then ok (genesis_beacon seed) else O.base.get s r)
  unfolding genesis_beacon
  read_after s s' r valid small done =
      O.base.get-put s s' (genesis_beacon seed) r valid (omega arith) small done

  -- The genesis beacon that is put again leaves every read as it was.
  read_again :
      (s s' : O.base.State) (l : Beacon) (r : ℕ)
      → O.base.IsValid s
      → IsChain s l
      → IsRound r
      → O.base.put s (genesis_beacon seed) ≡ ok s'
      → O.base.get s' r ≡ O.base.get s r
  read_again s s' l r valid c small done =
      let after = read_after s s' r valid small done in
      elim (Bool-cases (0 == r)) [
        | inl zeroth ↦
            let same : 0 ≡ r = ground arith in
            let there = subst (λ t. O.base.get s t ≡ ok (genesis_beacon seed)) same c.first in
            after ∙ rw zeroth (sym there)
        | inr later ↦ after ∙ rw later refl
      ]

  last_again :
      (s s' : O.base.State) (l : Beacon)
      → O.base.IsValid s
      → O.base.IsValid s'
      → IsChain s l
      → O.base.put s (genesis_beacon seed) ≡ ok s'
      → O.base.last s' ≡ ok l
  last_again s s' l valid valid' c done =
      let (small, at_last) = O.base.get-last s l valid c.stored in
      let (x, at_end, above) =
        O.get-last_above s' l.round l valid' small
          (read_again s s' l l.round valid c small done ∙ at_last) in
      let (small', found) = O.base.get-last s' x valid' at_end in
      let before = sym (read_again s s' l x.round valid c small' done) ∙ found in
      let (l', stored, below) = O.get-last_above s x.round x valid small' before in
      let equal : l' ≡ l = ground (arith, c.stored, stored) in
      let level : l.round ≡ x.round =
        subst (λ (t : Beacon). x.round ≤ t.round → l.round ≡ x.round) (sym equal) (λ h. omega arith)
          below in
      let same : x ≡ l = ground (arith, subst (λ t. O.base.get s t ≡ ok l) level at_last, before) in
      at_end ∙ rw same refl

  reopened-IsChain :
      (s s' : O.base.State) (l : Beacon)
      → O.base.IsValid s
      → O.base.IsValid s'
      → IsChain s l
      → O.base.put s (genesis_beacon seed) ≡ ok s'
      → IsChain s' l
  reopened-IsChain s s' l valid valid' c done =
      let again = λ (r : ℕ) (small : IsRound r). read_again s s' l r valid c small done in
      let (small, _) = O.base.get-last s l valid c.stored in
      record {
        stored = last_again s s' l valid valid' c done;
        first = again 0 (omega arith) ∙ c.first;
        linked = λ r below.
            let (b, b', here, next, link) = c.linked r below in
            (b, b', again r (omega arith) ∙ here, again (r + 1) (omega arith) ∙ next, link);
        verified =
            λ r b above small found. c.verified r b above small (sym (again r small) ∙ found);
      }

  -- In an empty database nothing reads.
  nothing_read :
      (s : O.base.State) (e : StoreError) (r : ℕ) (b : Beacon)
      → O.base.IsValid s
      → O.base.last s ≡ err e
      → IsRound r
      → O.base.get s r ≡ ok b
      → ⊥
  nothing_read s e r b valid empty small found =
      let (l, stored, _) = O.get-last_above s r b valid small found in cc

  fresh-IsChain :
      (s s' : O.base.State) (e : StoreError)
      → O.base.IsValid s
      → O.base.IsValid s'
      → O.base.last s ≡ err e
      → O.base.put s (genesis_beacon seed) ≡ ok s'
      → IsChain s' (genesis_beacon seed)
  fresh-IsChain s s' e valid valid' empty done =
      let read = λ (r : ℕ) (small : IsRound r). read_after s s' r valid small done in
      let first : O.base.get s' 0 ≡ ok (genesis_beacon seed) = read 0 (omega arith) in
      let (x, at_end, _) = O.get-last_above s' 0 (genesis_beacon seed) valid' (omega arith) first in
      let (small, found) = O.base.get-last s' x valid' at_end in
      record {
        stored = elim (Bool-cases (0 == x.round)) [
          | inl zeroth ↦
              let same : genesis_beacon seed ≡ x = ground (arith, read x.round small, found) in
              at_end ∙ rw same refl
          | inr later ↦ absurd (
              nothing_read s e x.round x valid empty small
                (ground (arith, read x.round small, found)))
        ];
        first = first;
        linked = λ r below. absurd (omega (arith, genesis_round));
        verified = λ r b above small found.
            absurd (nothing_read s e r b valid empty small (ground (arith, read r small, found)));
      }

  pub put_genesis-IsChain :
      (s s' : O.base.State) (l : Beacon)
      → IsStartable s l
      → O.base.put s (genesis_beacon seed) ≡ ok s'
      → O.base.IsValid s' × IsChain s' l
  unfolding genesis_beacon
  put_genesis-IsChain s s' l (valid, inl (e, empty, same)) done =
      let valid' = O.base.put-IsValid s s' (genesis_beacon seed) valid (omega arith) done in
      (valid', subst (IsChain s') (sym same) (fresh-IsChain s s' e valid valid' empty done))
  put_genesis-IsChain s s' l (valid, inr c) done =
      let valid' = O.base.put-IsValid s s' (genesis_beacon seed) valid (omega arith) done in
      (valid', reopened-IsChain s s' l valid valid' c done)
