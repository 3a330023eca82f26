-- ===== src/Http/Waiters.antt =====
-- http/server.go: what the waiters get.
use drand.Prelude.{
  ℕ, ◌+◌, ◌%◌, ◌^◌, ◌≡◌, ◌⊎◌, refl, sym, ap, subst, ◌∙◌, List, [], ◌∷◌, ◌++◌, map, ◌==◌, ==_iff,
  Bytes, All, arith, Bool-cases, inl, inr,
}
use drand.Client.Verify.{RandomData}
use drand.Http.{
  Waiter, Handler, watch_next, watch_failed, blocks, join, without, leave, ServerEvent, comes,
  fails, joins, leaves, on_event, deliveries,
}

module _ (marshal : RandomData → Bytes) where
  -- While rounds are seen, every waiter waits for the next one; when none is, nobody waits.
  pub record IsInStep (h : Handler) : Type 0 where
    pub next : All (λ (w : Waiter). w.round ≡ (h.latest_round + 1) % 2 ^ 64) h.pending
    pub seen : h.latest_round ≡ 0 → h.pending ≡ []

  All-snoc :
      (P : Waiter → Type 0) (ws : List Waiter) (w : Waiter) → All P ws → P w → All P (ws ++ w ∷ [])
  All-snoc P [] w a p = (p, tt)
  All-snoc P (v ∷ ws) w a p = (a.0, All-snoc P ws w a.1 p)

  All-without :
      (P : Waiter → Type 0) (ws : List Waiter) (id : ℕ) → All P ws → All P (without marshal ws id)
  unfolding without
  All-without P [] id a = tt
  All-without P (w ∷ ws) id a = elim (Bool-cases (w.id == id)) [
    | inl same ↦ rw (same, without) a.1
    | inr other ↦ rw (other, without) (a.0, All-without P ws id a.1)
  ]

  without-empty : (ws : List Waiter) (id : ℕ) → ws ≡ [] → without marshal ws id ≡ []
  without-empty ws id e = ap (λ t. without marshal t id) e ∙ (unfold without in refl)

  join-IsInStep : (h : Handler) (w : Waiter) → IsInStep h → IsInStep (join marshal h w)
  unfolding join blocks
  join-IsInStep h w s = elim (Bool-cases (blocks marshal h w.round)) [
    | inl waits ↦
        let step : join marshal h w ≡ record h { pending = h.pending ++ w ∷ [] } =
          rw (waits, join) refl in
        subst IsInStep (sym step) (record {
          next =
              All-snoc (λ (v : Waiter). v.round ≡ (h.latest_round + 1) % 2 ^ 64) h.pending w s.next
                (ground arith);
          seen = λ e. absurd (ground arith);
        })
    | inr goes ↦
        let step : join marshal h w ≡ h = rw (goes, join) refl in subst IsInStep (sym step) s
  ]

  -- A body for a waiter that is empty or the result of the round it waits for.
  abbrev pub IsRight : Waiter × Bytes → Type 0
  IsRight d = (d.1 ≡ []) ⊎ ((r : RandomData) × (r.rnd ≡ d.0.round) × (d.1 ≡ marshal r))

  sent-IsRight :
      (ws : List Waiter) (b : Bytes) (round : ℕ)
      → ((b ≡ []) ⊎ ((r : RandomData) × (r.rnd ≡ round) × (b ≡ marshal r)))
      → All (λ (w : Waiter). w.round ≡ round) ws
      → All IsRight (map (λ w. (w, b)) ws)
  sent-IsRight [] b round right a = tt
  sent-IsRight (w ∷ ws) b round right a = (
    elim right [ inl empty ↦ inl empty | inr (r, same, made) ↦ inr (r, same ∙ sym a.0, made) ],
    sent-IsRight ws b round right a.1,
  )

  nobody-IsRight : (ws : List Waiter) (b : Bytes) → ws ≡ [] → All IsRight (map (λ w. (w, b)) ws)
  nobody-IsRight ws b none_waits =
      subst (λ t. All IsRight (map (λ w. (w, b)) t)) (sym none_waits) tt

  comes-IsRight :
      (h : Handler) (r : RandomData) → IsInStep h → All IsRight (watch_next marshal h r).1
  unfolding watch_next
  comes-IsRight h r s = elim (Bool-cases (h.latest_round == 0)) [
    | inl unseen ↦ nobody-IsRight h.pending _ (s.seen ((==_iff h.latest_round 0).0 unseen))
    | inr seen ↦ elim (Bool-cases ((h.latest_round + 1) % 2 ^ 64 == r.rnd)) [
      | inl follows ↦
          let same = (==_iff ((h.latest_round + 1) % 2 ^ 64) r.rnd).0 follows in
          rw (seen, follows)
            (sent-IsRight h.pending (marshal r) ((h.latest_round + 1) % 2 ^ 64)
              (inr (r, sym same, refl)) s.next)
      | inr missed ↦
          rw (seen, missed)
            (sent-IsRight h.pending [] ((h.latest_round + 1) % 2 ^ 64) (inl refl) s.next)
    ]
  ]

  -- The stream fails only while nobody waits.
  abbrev pub IsCalm : Handler → List (ServerEvent marshal) → Type 0
  IsCalm h [] = Unit
  IsCalm h (comes r ∷ es) = IsCalm (on_event marshal h (comes r)).0 es
  IsCalm h (fails ∷ es) = (h.pending ≡ []) × IsCalm (on_event marshal h fails).0 es
  IsCalm h (joins w ∷ es) = IsCalm (on_event marshal h (joins w)).0 es
  IsCalm h (leaves id ∷ es) = IsCalm (on_event marshal h (leaves id)).0 es

  All-append :
      (P : Waiter × Bytes → Type 0) (xs ys : List (Waiter × Bytes))
      → All P xs
      → All P ys
      → All P (xs ++ ys)
  All-append P [] ys a b = b
  All-append P (x ∷ xs) ys a b = (a.0, All-append P xs ys a.1 b)

  -- As long as the stream of the watch fails only while nobody waits: whatever results come, with gaps and
  -- repetitions, and whoever joins and leaves, a waiter gets the result of the round it asked for, or an
  -- empty body.
  pub deliveries-IsRight :
      (es : List (ServerEvent marshal)) (h : Handler)
      → IsInStep h
      → IsCalm h es
      → All IsRight (deliveries marshal h es)
  unfolding deliveries on_event watch_next watch_failed leave
  deliveries-IsRight [] h s calm = tt
  deliveries-IsRight (comes r ∷ es) h s calm =
      All-append IsRight (watch_next marshal h r).1 _ (comes-IsRight h r s) (
        deliveries-IsRight es (watch_next marshal h r).0 (record { next = tt; seen = λ e. refl })
          calm)
  deliveries-IsRight (fails ∷ es) h s calm =
      deliveries-IsRight es (watch_failed marshal h)
        (record {
          next = subst (λ t. All (λ (w : Waiter). w.round ≡ 1) t) (sym calm.0) tt;
          seen = λ e. calm.0;
        })
        calm.1
  deliveries-IsRight (joins w ∷ es) h s calm =
      deliveries-IsRight es (join marshal h w) (join-IsInStep h w s) calm
  deliveries-IsRight (leaves id ∷ es) h s calm =
      deliveries-IsRight es (leave marshal h id)
        (record {
          next =
              All-without (λ (w : Waiter). w.round ≡ (h.latest_round + 1) % 2 ^ 64) h.pending id
                s.next;
          seen = λ e. without-empty h.pending id (s.seen e);
        })
        calm
