-- ===== src/Key/Wire/RoundTrip.antt =====
-- key/group.go: a group survives the way over the wire.
use drand.Prelude.{
  ltb, ◌==◌, ==_iff, Bool-cases, ℕ, ◌*◌, ◌%◌, ◌^◌, ◌≡◌, ◌≢◌, ◌≤◌, ◌<◌, refl, sym, ap, subst, ◌∙◌,
  true, false, Option, none, some, List, [], ◌∷◌, length, map, ok, Bytes, arith, All, inl, inr,
}
use drand.Prelude.Int.{ℤ, pos, negsuc, pos_part, neg_part, eq_ℤ, eq_ℤ_iff}
use drand.Prelude.Words.{to_int64, to_uint64}
use drand.Chain.Time.{whole_seconds}
use drand.Key.Suite.{Suite}
use drand.Key.Identity.{DistPublic}
use drand.Key.Node.{Node}
use drand.Key.Group.{Group, minimum_t, get_genesis_seed, seed_or_hash, group_hash}
use drand.Key.Wire.{
  node_to_proto, identity_of, identity_from_proto, node_of, node_from_proto, nodes_from_proto,
  points_from_proto, dist_to_proto, GroupPacket, received_group, with_coefficients, with_nodes,
  group_from_proto, group_to_proto,
}

-- An int64
abbrev pub IsInt64 : ℤ → Type 0
IsInt64 z = (pos_part z < 2 ^ 63) × (neg_part z ≤ 2 ^ 63)

to_int64-to_uint64 : (z : ℤ) → IsInt64 z → to_int64 (to_uint64 z) ≡ z
to_int64-to_uint64 (pos n) h = ground arith
to_int64-to_uint64 (negsuc n) h = ground arith

-- A duration of whole seconds that a uint32 holds
abbrev pub IsSeconds : ℤ → Type 0
IsSeconds d = (s : ℕ) × (s < 2 ^ 32) × (d ≡ pos (s * 1000000000))

pub seconds_back : (d : ℤ) → IsSeconds d → pos (whole_seconds d % 2 ^ 32 * 1000000000) ≡ d
unfolding whole_seconds
seconds_back d (s, small, same) =
    subst (λ t. pos (whole_seconds t % 2 ^ 32 * 1000000000) ≡ t) (sym same) (ap pos (omega arith))

differs : (z : ℤ) → z ≢ pos 0 → eq_ℤ z (pos 0) ≡ false
differs z h = elim (Bool-cases (eq_ℤ z (pos 0))) [
  | inl zero ↦ absurd (h ((eq_ℤ_iff z (pos 0)).0 zero))
  | inr other ↦ other
]

lasts : (d : ℤ) → IsSeconds d → d ≢ pos 0 → (whole_seconds d % 2 ^ 32 == 0) ≡ false
lasts d whole h = elim (Bool-cases (whole_seconds d % 2 ^ 32 == 0)) [
  | inl zero ↦
      let none_left = (==_iff (whole_seconds d % 2 ^ 32) 0).0 zero in
      absurd (h (sym (seconds_back d whole) ∙ ap (λ t. pos (t * 1000000000)) none_left))
  | inr other ↦ other
]

module _ (K : Suite) where
  abbrev pub HasHostPort : Node K → Type 0
  HasHostPort n = K.is_host_port n.identity.addr ≡ true

  node-back : (n : Node K) → HasHostPort n → node_from_proto K (node_to_proto K n) ≡ ok n
  unfolding node_from_proto identity_from_proto node_of identity_of
  node-back n h = rw (h, K.unmarshal-marshal n.identity.key) refl

  nodes-back :
      (ns : List (Node K))
      → All HasHostPort ns
      → nodes_from_proto K (map (node_to_proto K) ns) ≡ ok ns
  unfolding nodes_from_proto
  nodes-back [] h = refl
  nodes-back (n ∷ ns) h = rw (node-back n h.0, nodes-back ns h.1, nodes_from_proto) refl

  pub points-back : (ps : List K.Point) → points_from_proto K (map K.marshal ps) ≡ some ps
  unfolding points_from_proto
  points-back [] = refl
  points-back (p ∷ ps) = rw (K.unmarshal-marshal p, points-back ps, points_from_proto) refl

  -- The group has at least the minimal threshold, and as many coefficients as that when it has a key.
  pub record IsSendable (g : Group K) : Type 0 where
    pub addresses : All HasHostPort g.nodes
    pub enough : minimum_t (length g.nodes) ≤ g.threshold
    pub small : g.threshold < 2 ^ 32
    pub whole : IsSeconds g.period
    pub whole_catchup : IsSeconds g.catchup_period
    pub some_period : g.period ≢ pos 0
    pub genesis : IsInt64 g.genesis_time
    pub started : g.genesis_time ≢ pos 0
    pub transition : IsInt64 g.transition_time
    pub degree : (d : DistPublic K) → g.public_key ≡ some d → length d.coefficients ≡ g.threshold

  get_genesis_seed-public_key : (g : Group K) → (get_genesis_seed K g).1.public_key ≡ g.public_key
  unfolding get_genesis_seed
  get_genesis_seed-public_key g = seeded g.genesis_seed
    where
      seeded : (o : Option Bytes) → (seed_or_hash K g o).1.public_key ≡ g.public_key
      seeded none = unfold seed_or_hash group_hash in refl
      seeded (some s) = unfold seed_or_hash in refl

  -- The packet that carries a group with a seed
  abbrev packet_of : Group K → Bytes → GroupPacket
  packet_of g seed = record {
    nodes = map (node_to_proto K) g.nodes;
    threshold = g.threshold % 2 ^ 32;
    period = whole_seconds g.period % 2 ^ 32;
    catchup_period = whole_seconds g.catchup_period % 2 ^ 32;
    genesis_time = to_uint64 g.genesis_time;
    transition_time = to_uint64 g.transition_time;
    genesis_seed = some seed;
    dist_key = dist_to_proto K g.public_key;
  }

  sent : (g : Group K) → (group_to_proto K g).0 ≡ packet_of g (get_genesis_seed K g).0
  unfolding group_to_proto
  sent g = rw (get_genesis_seed-public_key g) refl

  fields-back :
      (g : Group K) (seed : Bytes) (o : Option (DistPublic K))
      → IsSendable g
      → received_group K (packet_of g seed) g.nodes o
        ≡ record g { genesis_seed = some seed; public_key = o }
  fields-back g seed o s =
      let threshold : g.threshold % 2 ^ 32 ≡ g.threshold = let small = s.small in omega arith in
      rw
        (
          threshold,
          seconds_back g.period s.whole,
          seconds_back g.catchup_period s.whole_catchup,
          to_int64-to_uint64 g.genesis_time s.genesis,
          to_int64-to_uint64 g.transition_time s.transition,
        )
        refl

  points-accepted :
      (g : Group K) (seed : Bytes) (cs : List K.Point)
      → length cs ≡ g.threshold
      → IsSendable g
      → with_coefficients K (packet_of g seed) g.nodes (some cs)
        ≡ ok (record g {
          genesis_seed = some seed;
          public_key = some (record { coefficients = cs });
        })
  unfolding with_coefficients minimum_t
  points-accepted g seed [] size s = let enough = s.enough in absurd (omega arith)
  points-accepted g seed (c ∷ cs) size s =
      let same : (length (c ∷ cs) == g.threshold % 2 ^ 32) ≡ true =
        let small = s.small in ground arith in
      let step : with_coefficients K (packet_of g seed) g.nodes (some (c ∷ cs))
          ≡ ok (
              received_group K (packet_of g seed) g.nodes
                (some (record { coefficients = c ∷ cs }))) =
        rw (same, with_coefficients) refl in
      step ∙ ap ok (fields-back g seed (some (record { coefficients = c ∷ cs })) s)

  coefficients-back :
      (g : Group K) (seed : Bytes) (o : Option (DistPublic K))
      → ((d : DistPublic K) → o ≡ some d → length d.coefficients ≡ g.threshold)
      → IsSendable g
      → with_coefficients K (packet_of g seed) g.nodes (points_from_proto K (dist_to_proto K o))
        ≡ ok (record g { genesis_seed = some seed; public_key = o })
  unfolding with_coefficients points_from_proto
  coefficients-back g seed none degree s = ap ok (fields-back g seed none s)
  coefficients-back g seed (some d) degree s =
      rw (points-back d.coefficients) (points-accepted g seed d.coefficients (degree d refl) s)

  -- What arrives of a group that is sent is the group, with its seed set.
  pub group_from_proto-group_to_proto :
      (g : Group K)
      → IsSendable g
      → group_from_proto K (group_to_proto K g).0
        ≡ ok (record g { genesis_seed = some (get_genesis_seed K g).0 })
  unfolding group_from_proto with_nodes
  group_from_proto-group_to_proto g s =
      let enough : ltb (g.threshold % 2 ^ 32) (minimum_t (length g.nodes)) ≡ false =
        let small = s.small in let enough = s.enough in ground arith in
      let started : eq_ℤ (to_int64 (to_uint64 g.genesis_time)) (pos 0) ≡ false =
        rw (to_int64-to_uint64 g.genesis_time s.genesis) (differs g.genesis_time s.started) in
      let some_period = lasts g.period s.whole s.some_period in
      rw (sent g) (
        rw (nodes-back g.nodes s.addresses) (
          rw (enough, started, some_period)
            (coefficients-back g (get_genesis_seed K g).0 g.public_key s.degree s)))
