-- ===== src/Core/Broadcast/Once.antt =====
-- core/broadcast.go: each packet reaches the application once, and what reaches it was verified.
use drand.Prelude.{
  ℕ, ◌+◌, ◌≡◌, ◌≤◌, ◌↔◌, refl, sym, ap, subst, ◌∙◌, Bool, true, false, not, Option, none, some,
  List, [], ◌∷◌, ◌++◌, if◌then◌else◌, Bytes, bytes_equal, bytes_equal_refl, bytes_equal_iff, arith,
  Bool-cases, inl, inr,
}
use drand.Core.Broadcast.{
  Kind, deal, response, justification, exists, put_hash, Packet, Sender, EchoBroadcast, pass,
  pass_to_application, sendout, push, receive_packet, broadcast_dkg,
}

exists-snoc :
    (hs : List Bytes) (h g : Bytes)
    → exists (hs ++ h ∷ []) g ≡ (if exists hs g then true else bytes_equal h g)
unfolding exists
exists-snoc [] h g = ground arith
exists-snoc (x ∷ hs) h g = ground (arith, exists-snoc hs h g)

exists-put_hash :
    (hs : List Bytes) (h g : Bytes)
    → exists (put_hash hs h) g ≡ (if exists hs g then true else bytes_equal h g)
unfolding put_hash
exists-put_hash hs h g = elim (Bool-cases (exists hs h)) [
  | inr new ↦ rw new (exists-snoc hs h g)
  | inl seen ↦ rw seen (elim (Bool-cases (bytes_equal h g)) [
    | inr other ↦ ground arith
    | inl same ↦
        let eq = (bytes_equal_iff h g).0 same in
        let seen' : exists hs g ≡ true = subst (λ t. exists hs t ≡ true) eq seen in rw seen' refl
  ])
]

module _ (Bundle : Type 0) (hash_of : Packet Bundle → Bytes) (verif : Packet Bundle → Bool) where
  -- How often a packet of the hash waits in a channel of the kind.
  abbrev pub count : Kind → Bytes → List Bundle → ℕ
  count kind h [] = 0
  count kind h (x ∷ xs) =
      (if bytes_equal (hash_of (record { kind = kind; bundle = x })) h then 1 else 0)
      + count kind h xs

  -- How often a packet of the hash was passed to the application.
  abbrev pub times : Bytes → EchoBroadcast Bundle → ℕ
  times h b = count deal h b.deal_ch + count response h b.resp_ch + count justification h b.just_ch

  count-snoc :
      (kind : Kind) (h : Bytes) (xs : List Bundle) (x : Bundle)
      → count kind h (xs ++ x ∷ [])
        ≡ count kind h xs
          + (if bytes_equal (hash_of (record { kind = kind; bundle = x })) h then 1 else 0)
  count-snoc kind h [] x = omega arith
  count-snoc kind h (y ∷ xs) x = omega (arith, count-snoc kind h xs x)

  pass-times :
      (b : EchoBroadcast Bundle) (kind : Kind) (x : Bundle) (h : Bytes)
      → times h (pass Bundle b kind x)
        ≡ times h b
          + (if bytes_equal (hash_of (record { kind = kind; bundle = x })) h then 1 else 0)
  unfolding pass
  pass-times b deal x h = omega (arith, count-snoc deal h b.deal_ch x)
  pass-times b response x h = omega (arith, count-snoc response h b.resp_ch x)
  pass-times b justification x h = omega (arith, count-snoc justification h b.just_ch x)

  -- A packet of each hash was passed once at most, and only with the hash recorded.
  abbrev pub IsOnce : EchoBroadcast Bundle → Type 0
  IsOnce b = (h : Bytes) → times h b ≤ (if exists b.hashes h then 1 else 0)

  -- What can happen: a packet arrives, or the node pushes one of its own that it has not pushed or
  -- received before, or a sender sends the first packet of its queue.
  pub data Step (b : EchoBroadcast Bundle) : EchoBroadcast Bundle → Type 0 where
    arrives : (o : Option (Packet Bundle)) → Step b (broadcast_dkg Bundle hash_of verif b o).0
    pushes :
        (p : Packet Bundle)
        → exists b.hashes (hash_of p) ≡ false
        → Step b (push Bundle hash_of verif b p)
    sends : (senders : List (Sender Bundle)) → Step b (record b { senders = senders })

  pub data Reach (b : EchoBroadcast Bundle) : EchoBroadcast Bundle → Type 0 where
    here : Reach b b
    then_step : {m b' : EchoBroadcast Bundle} → Reach b m → Step m b' → Reach b b'

  pass-hashes :
      (b : EchoBroadcast Bundle) (kind : Kind) (x : Bundle)
      → (pass Bundle b kind x).hashes ≡ b.hashes
  unfolding pass
  pass-hashes b deal x = refl
  pass-hashes b response x = refl
  pass-hashes b justification x = refl

  -- Passing a packet that was not seen keeps the invariant when its hash is recorded with it.
  recorded-IsOnce :
      (b b' : EchoBroadcast Bundle) (p : Packet Bundle)
      → exists b.hashes (hash_of p) ≡ false
      → IsOnce b
      → b'.hashes ≡ put_hash b.hashes (hash_of p)
      → ((h : Bytes) → times h b' ≡ times h b + (if bytes_equal (hash_of p) h then 1 else 0))
      → IsOnce b'
  recorded-IsOnce b b' p new once hashes counted h =
      let shape = ap (λ l. exists l h) hashes ∙ exists-put_hash b.hashes (hash_of p) h in
      let before = once h in
      let after = counted h in
      elim (Bool-cases (bytes_equal (hash_of p) h)) [
        | inr other ↦ rw (shape, other) (ground arith)
        | inl same ↦
            let fresh : exists b.hashes h ≡ false =
              subst (λ t. exists b.hashes t ≡ false) ((bytes_equal_iff (hash_of p) h).0 same) new in
            rw (shape, same) (ground arith)
      ]

  passed-IsOnce :
      (b : EchoBroadcast Bundle) (p : Packet Bundle) (bypass : Bool)
      → exists b.hashes (hash_of p) ≡ false
      → IsOnce b
      → IsOnce (pass_to_application Bundle (sendout Bundle b (hash_of p) p bypass) p)
  unfolding pass_to_application sendout
  passed-IsOnce b p bypass new once =
      let b' = sendout Bundle b (hash_of p) p bypass in
      recorded-IsOnce b (pass_to_application Bundle b' p) p new once
        (pass-hashes b' p.kind p.bundle) (pass-times b' p.kind p.bundle)

  push-IsOnce :
      (b : EchoBroadcast Bundle) (p : Packet Bundle)
      → exists b.hashes (hash_of p) ≡ false
      → IsOnce b
      → IsOnce (push Bundle hash_of verif b p)
  unfolding push pass_to_application sendout
  push-IsOnce b p new once =
      recorded-IsOnce b (push Bundle hash_of verif b p) p new once
        (ap (λ l. put_hash l (hash_of p)) (pass-hashes b p.kind p.bundle))
        (pass-times b p.kind p.bundle)

  receive-IsOnce :
      (b : EchoBroadcast Bundle) (p : Packet Bundle)
      → IsOnce b
      → IsOnce (receive_packet Bundle hash_of verif b p).0
  unfolding receive_packet
  receive-IsOnce b p once = elim (Bool-cases (exists b.hashes (hash_of p))) [
    | inl seen ↦
        let same : (receive_packet Bundle hash_of verif b p).0 ≡ b =
          rw (seen, receive_packet) refl in
        subst IsOnce (sym same) once
    | inr new ↦ elim (Bool-cases (verif p)) [
      | inr bad ↦
          let same : (receive_packet Bundle hash_of verif b p).0 ≡ b =
            rw (new, bad, receive_packet) refl in
          subst IsOnce (sym same) once
      | inl good ↦
          let b' = pass_to_application Bundle (sendout Bundle b (hash_of p) p false) p in
          let done : (receive_packet Bundle hash_of verif b p).0 ≡ b' =
            rw (new, good, receive_packet) refl in
          subst IsOnce (sym done) (passed-IsOnce b p false new once)
    ]
  ]

  Step-IsOnce : (b b' : EchoBroadcast Bundle) → IsOnce b → Step b b' → IsOnce b'
  unfolding broadcast_dkg
  Step-IsOnce b b' once (arrives none) = once
  Step-IsOnce b b' once (arrives (some p)) = receive-IsOnce b p once
  Step-IsOnce b b' once (pushes p new) = push-IsOnce b p new once
  Step-IsOnce b b' once (sends senders) = once

  -- However packets arrive, again and again and from whomever, and whatever new packets the node
  -- pushes: of each hash, one packet at most is ever passed to the application.
  pub Reach-IsOnce : (b b' : EchoBroadcast Bundle) → IsOnce b → Reach b b' → IsOnce b'
  Reach-IsOnce b b' once here = once
  Reach-IsOnce b b' once (then_step {m = m} run step) =
      Step-IsOnce m b' (Reach-IsOnce b m once run) step

  -- BroadcastDKG changes something exactly for a packet whose hash is new and that verifies; it fails
  -- exactly for one whose hash is new and that does not verify.
  pub receive_packet_cases :
      (b : EchoBroadcast Bundle) (p : Packet Bundle)
      → let (b', done) = receive_packet Bundle hash_of verif b p in
        let new = not (exists b.hashes (hash_of p)) in
        ((done ≡ false) ↔ ((new ≡ true) × (verif p ≡ false)))
        × (new ≡ false → b' ≡ b)
        × (verif p ≡ false → b' ≡ b)
        × (new ≡ true → verif p ≡ true → exists b'.hashes (hash_of p) ≡ true)
  unfolding receive_packet pass_to_application sendout
  receive_packet_cases b p =
      let b' = sendout Bundle b (hash_of p) p false in
      let recorded : exists (pass_to_application Bundle b' p).hashes (hash_of p) ≡ true =
        ap (λ l. exists l (hash_of p)) (pass-hashes b' p.kind p.bundle)
        ∙ exists-put_hash b.hashes (hash_of p) (hash_of p)
        ∙ (let same = bytes_equal_refl (hash_of p) in ground arith) in
      (
        (λ e. ground arith, λ e. ground arith),
        λ e. ground arith,
        λ e. ground arith,
        λ e f. ground arith,
      )
