-- ===== src/Client/Optimizing/Ranking.antt =====
-- client/optimizing.go: the ranking of the clients by speed.
use mathlib.Core.List.{Perm}
use mathlib.Core.List.Perm
use drand.Prelude.{
  ℕ, ◌≡◌, ◌⊎◌, refl, sym, ap, subst, ◌∙◌, inl, inr, true, false, ◌&&◌, List, [], ◌∷◌, map, arith,
  All, ◌==◌, ==_iff, if◌then◌else◌, Bool-cases,
}
use drand.Prelude.Int.{ℤ, ltb_ℤ, ◌≤ℤ◌}
use drand.Prelude.Sorting.{sort_by, sort_by-perm, IsSortedBy, sort_by-IsSortedBy}
use drand.Client.Optimizing.{
  RequestStat, OptimizingClient, sample, samples, faster, update_stats, fastest_clients,
}

abbrev client_of : RequestStat → ℕ
client_of s = s.client

sample-clients :
    (next : RequestStat) (stats : List RequestStat)
    → map client_of (sample next stats) ≡ map client_of stats
unfolding sample
sample-clients next [] = refl
sample-clients next (curr ∷ rest) = ground (arith, sample-clients next rest)

samples-clients :
    (nexts stats : List RequestStat) → map client_of (samples nexts stats) ≡ map client_of stats
unfolding samples
samples-clients [] stats = refl
samples-clients (next ∷ nexts) stats =
    samples-clients nexts (sample next stats) ∙ sample-clients next stats

not_below : (a b : ℤ) → ltb_ℤ a b ≡ false → b ≤ℤ a
not_below a b h = ground arith

below : (a b : ℤ) → ltb_ℤ a b ≡ true → a ≤ℤ b
below a b h = ground arith

-- Round trip times ascend.
abbrev pub IsRanked : List RequestStat → Type 0
IsRanked [] = Unit
IsRanked (s ∷ rest) = All (λ (t : RequestStat). s.rtt ≤ℤ t.rtt) rest × IsRanked rest

ahead-All :
    (s : RequestStat) (rest : List RequestStat)
    → All (λ t. faster t s ≡ false) rest
    → All (λ (t : RequestStat). s.rtt ≤ℤ t.rtt) rest
ahead-All s [] v = tt
ahead-All s (t ∷ rest) v = (not_below t.rtt s.rtt v.0, ahead-All s rest v.1)

IsSortedBy-IsRanked : (stats : List RequestStat) → IsSortedBy faster stats → IsRanked stats
IsSortedBy-IsRanked [] v = tt
IsSortedBy-IsRanked (s ∷ rest) v = (ahead-All s rest v.0, IsSortedBy-IsRanked rest v.1)

-- What a statistic is once a sample is seen, and once all are
abbrev pub seen : RequestStat → RequestStat → RequestStat
seen n s = if s.client == n.client && ltb_ℤ s.start_time n.start_time then n else s

abbrev pub all_seen : List RequestStat → RequestStat → RequestStat
all_seen [] s = s
all_seen (n ∷ ns) s = all_seen ns (seen n s)

abbrev pub IsOneOf : RequestStat → List RequestStat → Type 0
IsOneOf r [] = ⊥
IsOneOf r (n ∷ ns) = (r ≡ n) ⊎ IsOneOf r ns

-- The statistic of a client is its newest: the one before or a sample of that client, and none of these
-- started later.
pub record IsNewest (ns : List RequestStat) (s r : RequestStat) : Type 0 where
  pub same : r.client ≡ s.client
  pub from : (r ≡ s) ⊎ IsOneOf r ns
  pub after : s.start_time ≤ℤ r.start_time
  pub last : All (λ (n : RequestStat). (s.client ≡ n.client) → n.start_time ≤ℤ r.start_time) ns

-- Each client has one statistic.
abbrev pub IsEachOnce : List RequestStat → Type 0
IsEachOnce [] = Unit
IsEachOnce (s ∷ rest) =
    All (λ (t : RequestStat). (t.client == s.client) ≡ false) rest × IsEachOnce rest

seen-client : (n s : RequestStat) → (seen n s).client ≡ s.client
seen-client n s = elim (Bool-cases (s.client == n.client)) [
  | inr other ↦ rw other refl
  | inl same ↦ elim (Bool-cases (ltb_ℤ s.start_time n.start_time)) [
    | inl later ↦ rw (same, later) (sym ((==_iff s.client n.client).0 same))
    | inr older ↦ rw (same, older) refl
  ]
]

sample-others :
    (n : RequestStat) (c : ℕ) (rest : List RequestStat)
    → (c == n.client) ≡ true
    → All (λ (t : RequestStat). (t.client == c) ≡ false) rest
    → map (seen n) rest ≡ rest
sample-others n c [] h v = refl
sample-others n c (t ∷ rest) h v =
    let other : (t.client == n.client) ≡ false =
      subst (λ x. (t.client == x) ≡ false) ((==_iff c n.client).0 h) v.0 in
    rw (other, sample-others n c rest h v.1) refl

sample-seen :
    (n : RequestStat) (stats : List RequestStat)
    → IsEachOnce stats
    → sample n stats ≡ map (seen n) stats
unfolding sample
sample-seen n [] v = refl
sample-seen n (s ∷ rest) v = elim (Bool-cases (s.client == n.client)) [
  | inr other ↦ rw (other, sample-seen n rest v.1) refl
  | inl same ↦
      let eq : s.client ≡ n.client = (==_iff s.client n.client).0 same in
      let others = sample-others n s.client rest same v.0 in
      elim (Bool-cases (ltb_ℤ s.start_time n.start_time)) [
        | inl later ↦ rw (same, later, others, eq) refl
        | inr older ↦ rw (same, older, others) refl
      ]
]

seen-others :
    (n : RequestStat) (c : ℕ) (rest : List RequestStat)
    → All (λ (t : RequestStat). (t.client == c) ≡ false) rest
    → All (λ (t : RequestStat). (t.client == c) ≡ false) (map (seen n) rest)
seen-others n c [] v = tt
seen-others n c (t ∷ rest) v =
    (subst (λ x. (x == c) ≡ false) (sym (seen-client n t)) v.0, seen-others n c rest v.1)

seen-IsEachOnce :
    (n : RequestStat) (stats : List RequestStat)
    → IsEachOnce stats
    → IsEachOnce (map (seen n) stats)
seen-IsEachOnce n [] v = tt
seen-IsEachOnce n (s ∷ rest) v = (
  subst (λ c. All (λ (t : RequestStat). (t.client == c) ≡ false) (map (seen n) rest))
      (sym (seen-client n s)) (seen-others n s.client rest v.0),
  seen-IsEachOnce n rest v.1,
)

all_seen-map :
    (n : RequestStat) (ns stats : List RequestStat)
    → map (all_seen ns) (map (seen n) stats) ≡ map (all_seen (n ∷ ns)) stats
all_seen-map n ns [] = refl
all_seen-map n ns (s ∷ rest) = ap (λ t. all_seen ns (seen n s) ∷ t) (all_seen-map n ns rest)

map-itself : (stats : List RequestStat) → map (all_seen []) stats ≡ stats
map-itself [] = refl
map-itself (s ∷ rest) = ap (λ t. s ∷ t) (map-itself rest)

samples-all_seen :
    (ns stats : List RequestStat) → IsEachOnce stats → samples ns stats ≡ map (all_seen ns) stats
unfolding samples
samples-all_seen [] stats v = sym (map-itself stats)
samples-all_seen (n ∷ ns) stats v =
    ap (samples ns) (sample-seen n stats v)
    ∙ samples-all_seen ns (map (seen n) stats) (seen-IsEachOnce n stats v)
    ∙ all_seen-map n ns stats

-- One sample: the statistic is from it or as before, and not older than either.
seen-newest :
    (n s : RequestStat)
    → ((seen n s ≡ s) ⊎ (seen n s ≡ n))
      × (s.start_time ≤ℤ (seen n s).start_time)
      × ((s.client ≡ n.client) → n.start_time ≤ℤ (seen n s).start_time)
seen-newest n s = elim (Bool-cases (s.client == n.client)) [
  | inr other ↦
      rw other (inl refl, omega arith, λ e. let same = (==_iff s.client n.client).1 e in cc)
  | inl same ↦ elim (Bool-cases (ltb_ℤ s.start_time n.start_time)) [
    | inl later ↦
        rw (same, later) (inr refl, below s.start_time n.start_time later, λ e. omega arith)
    | inr older ↦
        rw (same, older) (inl refl, omega arith, λ e. not_below s.start_time n.start_time older)
  ]
]

≤ℤ_trans : (a b c : ℤ) → a ≤ℤ b → b ≤ℤ c → a ≤ℤ c
≤ℤ_trans a b c h k = omega arith

all_seen-IsNewest : (ns : List RequestStat) (s : RequestStat) → IsNewest ns s (all_seen ns s)
all_seen-IsNewest [] s = record { same = refl; from = inl refl; after = omega arith; last = tt }
all_seen-IsNewest (n ∷ ns) s =
    let t = seen n s in
    let r = all_seen ns t in
    let rest = all_seen-IsNewest ns t in
    let (source, after, this) = seen-newest n s in
    record {
      same = rest.same ∙ seen-client n s;
      from = elim rest.from [
        | inr later ↦ inr (inr later)
        | inl first ↦ elim source [
          | inl old ↦ inl (first ∙ old)
          | inr new ↦ inr (inl (first ∙ new))
        ]
      ];
      after = ≤ℤ_trans s.start_time t.start_time r.start_time after rest.after;
      last = (
        λ e. ≤ℤ_trans n.start_time t.start_time r.start_time (this e) rest.after,
        subst (λ c. All (λ (m : RequestStat). (c ≡ m.client) → m.start_time ≤ℤ r.start_time) ns)
            (seen-client n s) rest.last,
      );
    }

-- Whatever samples come, when each client has one statistic before: the statistics of the clients are
-- ranked by round trip time, the shortest first, and they are those that are each client's newest, of
-- the one before and the samples of that client. No client is lost or gained.
pub update_stats-IsRanked :
    (oc : OptimizingClient) (nexts : List RequestStat)
    → IsEachOnce oc.stats
    → IsRanked (update_stats oc nexts).stats
      × Perm (update_stats oc nexts).stats (map (all_seen nexts) oc.stats)
      × ((s : RequestStat) → IsNewest nexts s (all_seen nexts s))
      × Perm (fastest_clients (update_stats oc nexts)) (fastest_clients oc)
unfolding update_stats fastest_clients
update_stats-IsRanked oc nexts once =
    let ranked = sort_by-perm faster (samples nexts oc.stats) in
    (
      IsSortedBy-IsRanked _ (
          sort_by-IsSortedBy faster (λ s t h. ground arith) (λ s t u h k. ground arith)
            (samples nexts oc.stats)),
      subst (Perm (sort_by faster (samples nexts oc.stats))) (samples-all_seen nexts oc.stats once)
          ranked,
      all_seen-IsNewest nexts,
      subst (Perm (map client_of (sort_by faster (samples nexts oc.stats))))
          (samples-clients nexts oc.stats) (Perm.map client_of ranked),
    )
