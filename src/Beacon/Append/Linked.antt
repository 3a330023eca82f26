-- ===== src/Beacon/Append/Linked.antt =====
-- chain/beacon/store.go: what the append store keeps of the chain.
use drand.Prelude.{
  ℕ, ◌+◌, ◌%◌, ◌^◌, ◌≡◌, ◌<◌, ◌≤◌, sym, subst, some, List, [], ◌∷◌, ok, err, bytes_equal_iff, arith,
  inl, inr, Result-cases, length, ◌↔◌, ◌≢◌,
}
use native.Mathlib.Decide.{dec_lt}
use drand.Chain.Block.{Beacon}
use drand.Store.{Store}
use drand.Beacon.Append.{invalid_round, invalid_previous_signature, AppendStore, put}

module _ (S : Store) where
  -- The database is sound, and `last` is its last beacon.
  pub record IsCurrent (a : AppendStore S) (l : Beacon) : Type 0 where
    pub valid : S.IsValid a.store
    pub cached : a.last ≡ some l
    pub stored : S.last a.store ≡ ok l

  -- Round 0 up to the last one are stored, and each links to the one before it.
  abbrev pub IsLinked : S.State → ℕ → Type 0
  IsLinked s top =
      (r : ℕ)
      → r < top
      → (b b' : Beacon) × (S.get s r ≡ ok b)
        × (S.get s (r + 1) ≡ ok b')
        × (b'.previous_sig ≡ b.signature)

  pub put-inv :
      (a a' : AppendStore S) (l b : Beacon)
      → a.last ≡ some l
      → put S a b ≡ ok a'
      → (b.round ≡ (l.round + 1) % 2 ^ 64)
        × (l.signature ≡ b.previous_sig)
        × (S.put a.store b ≡ ok a'.store)
        × (a'.last ≡ some b)
  unfolding put
  put-inv a a' l b cached h = ground (arith, bytes_equal_iff l.signature b.previous_sig)

  -- The links after a store of the beacon that follows the last one.
  IsLinked-put :
      (s s' : S.State) (l b : Beacon)
      → S.IsValid s
      → S.last s ≡ ok l
      → IsLinked s l.round
      → l.round + 1 < 2 ^ 64
      → S.put s b ≡ ok s'
      → b.round ≡ l.round + 1
      → l.signature ≡ b.previous_sig
      → IsLinked s' (l.round + 1)
  IsLinked-put s s' l b valid stored linked room done next follows r h =
      let read =
        λ (q : ℕ) (small : q < 2 ^ 64). S.get-put s s' b q valid (omega arith) small done in
      let at_r = read r (omega arith) in
      let at_next = read (r + 1) (omega arith) in
      elim (dec_lt r l.round) [
        | yes below ↦
            let (b₁, b₂, here, there, link) = linked r below in
            (b₁, b₂, ground arith, ground arith, link)
        | no top ↦
            let same : r ≡ l.round = omega arith in
            let last_read =
              subst (λ t. S.get s t ≡ ok l) (sym same) (S.get-last s l valid stored).1 in
            (l, b, ground arith, ground arith, sym follows)
      ]

  -- A beacon that Put accepts follows the last one: its round is the next and its previous signature
  -- is the last signature. It is the last one then, and the chain is linked up to it. The last round
  -- is not the greatest uint64.
  pub put-IsLinked :
      (a a' : AppendStore S) (l b : Beacon)
      → IsCurrent a l
      → IsLinked a.store l.round
      → l.round + 1 < 2 ^ 64
      → put S a b ≡ ok a'
      → (b.round ≡ l.round + 1)
        × (b.previous_sig ≡ l.signature)
        × IsCurrent a' b
        × IsLinked a'.store b.round
  put-IsLinked a a' l b cur linked room h =
      let (round, follows, done, cached) = put-inv a a' l b cur.cached h in
      let next : b.round ≡ l.round + 1 = ground arith in
      (
        next,
        sym follows,
        record {
          valid = S.put-IsValid a.store a'.store b cur.valid (omega arith) done;
          cached = cached;
          stored =
              S.last-put a.store a'.store b l cur.valid (omega arith) done cur.stored (omega arith);
        },
        subst (IsLinked a'.store) (sym next)
            (IsLinked-put a.store a'.store l b cur.valid cur.stored linked room done next follows),
      )

  -- Put refuses the round exactly when it is not the next, and the previous signature exactly when the
  -- round is the next and the signature is not the last one. The store has a last beacon, whose round
  -- is not the greatest uint64.
  pub put_iff :
      (a : AppendStore S) (l b : Beacon)
      → a.last ≡ some l
      → l.round + 1 < 2 ^ 64
      → ((put S a b ≡ err invalid_round) ↔ (b.round ≢ l.round + 1))
        × ((put S a b ≡ err invalid_previous_signature)
            ↔ ((b.round ≡ l.round + 1) × (b.previous_sig ≢ l.signature)))
  unfolding put
  put_iff a l b cached room =
      let same = bytes_equal_iff l.signature b.previous_sig in
      (
        (λ h e. ground (arith, h, e), λ h. ground arith),
        (λ h. (ground arith, λ e. ground arith), λ h. ground arith),
      )

  -- Any beacons offered in turn; those that are refused leave the store as it was.
  unfoldable pub offer : List Beacon → AppendStore S → AppendStore S
  offer [] a = a
  offer (b ∷ bs) a = offer bs (elim (put S a b) [ ok a' ↦ a' | err e ↦ a ])

  -- Whatever beacons are offered, the store keeps a linked chain without gaps from round 0 to its last
  -- beacon, and never loses rounds. The last round and the number of offers sum up below 2 ^ 64.
  pub offer-IsLinked :
      (bs : List Beacon) (a : AppendStore S) (l : Beacon)
      → IsCurrent a l
      → IsLinked a.store l.round
      → l.round + length bs < 2 ^ 64
      → (l' : Beacon) × IsCurrent (offer bs a) l'
        × IsLinked (offer bs a).store l'.round
        × (l.round ≤ l'.round)
  unfolding offer
  offer-IsLinked [] a l cur linked room = (l, cur, linked, omega arith)
  offer-IsLinked (b ∷ bs) a l cur linked room = elim (Result-cases (put S a b)) [
    | inl (a', done) ↦
        let (next, _, cur', linked') = put-IsLinked a a' l b cur linked (omega arith) done in
        let (l', cur'', linked'', grown) = offer-IsLinked bs a' b cur' linked' (omega arith) in
        rw (done, offer) (l', cur'', linked'', omega arith)
    | inr (e, refused) ↦ rw (refused, offer) (offer-IsLinked bs a l cur linked (omega arith))
  ]
