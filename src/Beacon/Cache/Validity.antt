-- ===== src/Beacon/Cache/Validity.antt =====
-- chain/beacon/cache.go: what every cache holds, whatever was appended and flushed.
use drand.Prelude.{
  ℕ, ◌≡◌, ◌<◌, ◌^◌, ◌∙◌, ap, refl, sym, Bool, true, false, Option, none, some, List, [], ◌∷◌, arith,
  ltb, ◌==◌, if◌then◌else◌, Bytes, length, All, IfSome, Bool-cases, Option-cases, inl, inr, leb,
}
use drand.Prelude.Int.{ℤ}
use drand.Prelude.Assoc.{
  Assoc, bytes_eq, int_eq, lookup, insert, delete, HasDistinctKeys, All-lookup, All-delete,
  All-insert, insert-HasDistinctKeys, delete-HasDistinctKeys,
}
use drand.Chain.Encoding.{read_big_endian, read-round_to_bytes}
use drand.Chain.Crypto.{Crypto}
use drand.Beacon.Cache.{
  PartialBeaconPacket, RoundCache, PartialCache, round_id, new_round_cache, new_partial_cache,
  flush_index, evict, flush_one, flush_entries, flush_rounds, append_sig, make_room, open_cache,
  get_cache, count_partial, append_to, append, get_round_cache, rcvd_of, len, max_partials_per_node,
}

-- A round and a previous signature are read off their identifier.
round_id-injective :
    (q r : ℕ) (prev previous : Bytes)
    → q < 2 ^ 64
    → r < 2 ^ 64
    → round_id q prev ≡ round_id r previous
    → (q ≡ r) × (prev ≡ previous)
unfolding round_id
round_id-injective q r prev previous h k e =
    let both : ◌≡◌ {A = Option (ℕ × Bytes)} (some (q, prev)) (some (r, previous)) =
      sym (read-round_to_bytes q prev h)
      ∙ ap (read_big_endian 8 0) e
      ∙ read-round_to_bytes r previous k in
    (ground arith, ground arith)

module _ (k : Crypto) where
  -- The partials of a round cache are filed under their signers, each signer once.
  pub record IsValidRound (r : RoundCache) : Type 0 where
    pub signers : All (λ e. k.index_of e.1 ≡ e.0) r.sigs
    pub distinct : HasDistinctKeys r.sigs

  -- Each round cache stands under the identifier of its round and previous signature.
  abbrev pub IsFiled : Bytes × RoundCache → Type 0
  IsFiled e = (e.0 ≡ round_id e.1.round e.1.prev) × (e.1.id ≡ e.0) × IsValidRound e.1

  abbrev pub IsValid : PartialCache → Type 0
  IsValid c = All IsFiled c.rounds

  append_sig-IsValidRound :
      (r : RoundCache) (p : PartialBeaconPacket)
      → IsValidRound r
      → IsValidRound (append_sig k r p).0
  unfolding append_sig
  append_sig-IsValidRound r p v = elim (Option-cases (lookup (k.index_of p.partial_sig) r.sigs)) [
    | inl new ↦
        rw (new, append_sig)
          (record {
            signers = All-insert _ (k.index_of p.partial_sig) p.partial_sig r.sigs refl v.signers;
            distinct =
                insert-HasDistinctKeys (k.index_of p.partial_sig) p.partial_sig r.sigs v.distinct;
          })
    | inr (sig, seen) ↦ rw (seen, append_sig) v
  ]

  -- Adding a partial leaves the round, the previous signature and the identifier as they were.
  append_sig_same :
      (r : RoundCache) (p : PartialBeaconPacket)
      → let r' = (append_sig k r p).0 in (r'.round ≡ r.round) × (r'.prev ≡ r.prev) × (r'.id ≡ r.id)
  unfolding append_sig
  append_sig_same r p = ground arith

  append_sig-IsFiled :
      (id : Bytes) (r : RoundCache) (p : PartialBeaconPacket)
      → IsFiled (id, r)
      → IsFiled (id, (append_sig k r p).0)
  append_sig-IsFiled id r p h =
      let (same_round, same_prev, same_id) = append_sig_same r p in
      (rw (same_round, same_prev) h.0, rw same_id h.1, append_sig-IsValidRound r p h.2)

  flush_index-IsFiled :
      (id : Bytes) (r : RoundCache) (idx : ℤ) → IsFiled (id, r) → IsFiled (id, flush_index r idx)
  unfolding flush_index
  flush_index-IsFiled id r idx h = (
    h.0,
    h.1,
    record {
      signers = All-delete _ idx r.sigs h.2.signers;
      distinct = delete-HasDistinctKeys idx r.sigs h.2.distinct;
    },
  )

  put_back-IsValid :
      (rounds : Assoc Bytes RoundCache) (id : Bytes) (r : RoundCache) (gone : Bool)
      → All IsFiled rounds
      → IsFiled (id, r)
      → All IsFiled (if gone then delete id rounds else insert id r rounds)
  put_back-IsValid rounds id r true v h = All-delete _ id rounds v
  put_back-IsValid rounds id r false v h = All-insert _ id r rounds h v

  evict-IsValid :
      (c : PartialCache) (id : Bytes) (idx : ℤ) (ids : List Bytes)
      → IsValid c
      → IfSome IsValid (evict c id idx ids)
  unfolding evict
  evict-IsValid c id idx [] v = v
  evict-IsValid c id idx (to_evict ∷ ids) v = elim (Option-cases (lookup to_evict c.rounds)) [
    | inl missing ↦ rw (missing, evict) tt
    | inr (r, found) ↦
        let r' = flush_index r idx in
        rw (found, evict)
          (put_back-IsValid c.rounds to_evict r' (len r' == 0) v
            (flush_index-IsFiled to_evict r idx (All-lookup IsFiled to_evict c.rounds v found)))
  ]

  abbrev Opened : Bytes → PartialCache × Option RoundCache → Type 0
  Opened id t = IsValid t.0 × IfSome (λ r. IsFiled (id, r)) t.1

  make_room-IsValid :
      (c : PartialCache) (id : Bytes) (p : PartialBeaconPacket)
      → IsValid c
      → IfSome IsValid (make_room k c id p)
  unfolding make_room
  make_room-IsValid c id p v =
      elim (Bool-cases
        (leb max_partials_per_node (length (rcvd_of c (k.index_of p.partial_sig))))) [
          | inl full ↦
              rw (full, make_room)
                (evict-IsValid c id (k.index_of p.partial_sig)
                  (rcvd_of c (k.index_of p.partial_sig)) v)
          | inr room ↦ rw (room, make_room) v
        ]

  open_cache-Opened :
      (c : PartialCache) (p : PartialBeaconPacket) (o : Option PartialCache)
      → let id = round_id p.round p.previous_sig in
        IsValid c → IfSome IsValid o → Opened id (open_cache k c id p o)
  unfolding open_cache new_round_cache
  open_cache-Opened c p none v w = (v, tt)
  open_cache-Opened c p (some c') v w =
      let id = round_id p.round p.previous_sig in
      let empty : IsFiled (id, new_round_cache id p) =
        (refl, refl, record { signers = tt; distinct = tt }) in
      (All-insert IsFiled id (new_round_cache id p) c'.rounds empty w, empty)

  get_cache-Opened :
      (c : PartialCache) (p : PartialBeaconPacket)
      → let id = round_id p.round p.previous_sig in IsValid c → Opened id (get_cache k c id p)
  unfolding get_cache
  get_cache-Opened c p v =
      let id = round_id p.round p.previous_sig in
      elim (Option-cases (lookup id c.rounds)) [
        | inl missing ↦
            rw (missing, get_cache)
              (open_cache-Opened c p (make_room k c id p) v (make_room-IsValid c id p v))
        | inr (r, found) ↦ rw (found, get_cache) (v, All-lookup IsFiled id c.rounds v found)
      ]

  count_partial-IsValid :
      (c : PartialCache) (id : Bytes) (p : PartialBeaconPacket) (t : RoundCache × Bool)
      → IsValid c
      → IsFiled (id, t.0)
      → IsValid (count_partial k c id p t)
  unfolding count_partial
  count_partial-IsValid c id p (r, false) v h = v
  count_partial-IsValid c id p (r, true) v h = All-insert IsFiled id r c.rounds h v

  append_to-IsValid :
      (id : Bytes) (p : PartialBeaconPacket) (t : PartialCache × Option RoundCache)
      → Opened id t
      → IsValid (append_to k id p t)
  unfolding append_to
  append_to-IsValid id p (c, none) h = h.0
  append_to-IsValid id p (c, some r) h =
      count_partial-IsValid c id p (append_sig k r p) h.0 (append_sig-IsFiled id r p h.1)

  -- Appending any partial keeps each round cache under the identifier of its round and previous
  -- signature, and in it the partials under their signers, each signer once.
  pub append-IsValid :
      (c : PartialCache) (p : PartialBeaconPacket) → IsValid c → IsValid (append k c p)
  unfolding append
  append-IsValid c p v =
      append_to-IsValid (round_id p.round p.previous_sig) p
        (get_cache k c (round_id p.round p.previous_sig) p) (get_cache-Opened c p v)

  flush_one-IsValid :
      (round : ℕ) (id : Bytes) (r : RoundCache) (c : PartialCache)
      → IsValid c
      → IsValid (flush_one round id r c)
  unfolding flush_one
  flush_one-IsValid round id r c v = elim (Bool-cases (ltb round r.round)) [
    | inl later ↦ rw (later, flush_one) v
    | inr past ↦ rw (past, flush_one) (All-delete IsFiled id c.rounds v)
  ]

  flush_entries-IsValid :
      (round : ℕ) (entries : Assoc Bytes RoundCache) (c : PartialCache)
      → IsValid c
      → IsValid (flush_entries round entries c)
  unfolding flush_entries
  flush_entries-IsValid round [] c v = v
  flush_entries-IsValid round ((id, r) ∷ entries) c v =
      flush_entries-IsValid round entries (flush_one round id r c)
        (flush_one-IsValid round id r c v)

  -- Flushing keeps the same.
  pub flush_rounds-IsValid :
      (c : PartialCache) (round : ℕ) → IsValid c → IsValid (flush_rounds c round)
  unfolding flush_rounds
  flush_rounds-IsValid c round v = flush_entries-IsValid round c.rounds c v

  -- What a handler does to a cache.
  pub data Op : Type 0 where
    appends : PartialBeaconPacket → Op
    flushes : ℕ → Op

  unfoldable pub run_ops : List Op → PartialCache → PartialCache
  run_ops [] c = c
  run_ops (appends p ∷ ops) c = run_ops ops (append k c p)
  run_ops (flushes round ∷ ops) c = run_ops ops (flush_rounds c round)

  run_ops-IsValid : (ops : List Op) (c : PartialCache) → IsValid c → IsValid (run_ops ops c)
  unfolding run_ops
  run_ops-IsValid [] c v = v
  run_ops-IsValid (appends p ∷ ops) c v = run_ops-IsValid ops (append k c p) (append-IsValid c p v)
  run_ops-IsValid (flushes round ∷ ops) c v =
      run_ops-IsValid ops (flush_rounds c round) (flush_rounds-IsValid c round v)

  -- After any appends and flushes of a new cache, what GetRoundCache returns is the cache of the round
  -- and previous signature that were asked for, with its partials filed under their signers, each
  -- signer once. Rounds are below 2 ^ 64, as every uint64 is.
  pub get_round_cache-run_ops :
      (ops : List Op) (round : ℕ) (previous : Bytes) (r : RoundCache)
      → round < 2 ^ 64
      → r.round < 2 ^ 64
      → get_round_cache (run_ops ops new_partial_cache) round previous ≡ some r
      → (r.round ≡ round) × (r.prev ≡ previous) × IsValidRound r
  unfolding get_round_cache new_partial_cache
  get_round_cache-run_ops ops round previous r h h' found =
      let c = run_ops ops new_partial_cache in
      let filed =
        All-lookup IsFiled (round_id round previous) c.rounds
          (run_ops-IsValid ops new_partial_cache tt) found in
      let same = round_id-injective r.round round r.prev previous h' h (sym filed.0) in
      (same.0, same.1, filed.2)
