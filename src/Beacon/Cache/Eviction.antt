-- ===== src/Beacon/Cache/Eviction.antt =====
-- chain/beacon/cache.go: what a lookup gives after a flush and after an append, and the limit on the
-- partials of one signer.
use drand.Prelude.{
  ℕ, suc, ◌≡◌, ◌≤◌, refl, ap, ◌∙◌, Bool, true, Option, none, some, List, [], ◌∷◌, ◌++◌, arith, ltb,
  leb, ◌==◌, if◌then◌else◌, Bytes, length, not, ◌&&◌, bytes_equal, bytes_equal_iff,
}
use drand.Prelude.Assoc.{
  Assoc, bytes_eq, int_eq, lookup, insert, delete, lookup-delete, lookup-insert_self,
  HasDistinctKeys,
}
use drand.Chain.Crypto.{Crypto}
use drand.Beacon.Cache.{
  PartialBeaconPacket, RoundCache, PartialCache, round_id, new_round_cache, or_nil, rcvd_of, evict,
  flush_index, flush_one, flush_entries, flush_rounds, append_sig, make_room, open_cache, get_cache,
  count_partial, append_to, append, len, max_partials_per_node,
}

-- Whether an entry outlives a flush of the entries that are listed.
abbrev pub survives : ℕ → Option RoundCache → Bool
survives round none = true
survives round (some r) = ltb round r.round

flush_one-lookup :
    (round : ℕ) (j id : Bytes) (r : RoundCache) (c : PartialCache)
    → lookup j (flush_one round id r c).rounds
      ≡ (if bytes_equal id j && not (ltb round r.round) then none else lookup j c.rounds)
unfolding flush_one
flush_one-lookup round j id r c = ground (arith, lookup-delete id j c.rounds)

flush_entries-lookup :
    (round : ℕ) (j : Bytes) (entries : Assoc Bytes RoundCache) (c : PartialCache)
    → HasDistinctKeys entries
    → lookup j (flush_entries round entries c).rounds
      ≡ (if survives round (lookup j entries) then lookup j c.rounds else none)
unfolding flush_entries lookup
flush_entries-lookup round j [] c d = refl
flush_entries-lookup round j ((id, r) ∷ entries) c d = ground (
  arith,
  bytes_equal_iff id j,
  ap (λ t. lookup t entries) {x = id} {y = j},
  flush_one-lookup round j id r c,
  flush_entries-lookup round j entries (flush_one round id r c) d.1,
)

-- A flush of `round` removes exactly the round caches of that round and the earlier ones, in a cache
-- whose rounds stand under distinct keys.
pub flush_rounds-lookup :
    (c : PartialCache) (round : ℕ) (j : Bytes)
    → HasDistinctKeys c.rounds
    → lookup j (flush_rounds c round).rounds
      ≡ (if survives round (lookup j c.rounds) then lookup j c.rounds else none)
unfolding flush_rounds
flush_rounds-lookup c round j d = flush_entries-lookup round j c.rounds c d

module _ (k : Crypto) where
  make_room_full :
      (c : PartialCache) (id : Bytes) (p : PartialBeaconPacket) (oldest : Bytes) (ids : List Bytes)
      (r : RoundCache)
      → let idx = k.index_of p.partial_sig in
        rcvd_of c idx ≡ oldest ∷ ids
        → max_partials_per_node ≤ suc (length ids)
        → lookup oldest c.rounds ≡ some r
        → (c' : PartialCache) × (make_room k c id p ≡ some c') × (rcvd_of c' idx ≡ ids ++ id ∷ [])
  unfolding make_room evict rcvd_of
  make_room_full c id p oldest ids r full limit found =
      let idx = k.index_of p.partial_sig in
      let at_limit : leb max_partials_per_node (length (rcvd_of c idx)) ≡ true =
        rw full (ground arith) in
      let r' = flush_index r idx in
      (
        record {
          rounds = if len r' == 0 then delete oldest c.rounds else insert oldest r' c.rounds;
          rcvd = insert idx (ids ++ id ∷ []) c.rcvd;
        },
        rw (at_limit, full, make_room) (rw (found, evict)),
        ap or_nil (lookup-insert_self idx (ids ++ id ∷ []) c.rcvd),
      )

  get_cache_new :
      (c c' : PartialCache) (id : Bytes) (p : PartialBeaconPacket)
      → lookup id c.rounds ≡ none
      → make_room k c id p ≡ some c'
      → get_cache k c id p ≡ (
        record c' { rounds = insert id (new_round_cache id p) c'.rounds },
        some (new_round_cache id p),
      )
  unfolding get_cache
  get_cache_new c c' id p new room = rw (new, get_cache) (rw room (unfold open_cache in refl))

  append_sig_new :
      (id : Bytes) (p : PartialBeaconPacket)
      → append_sig k (new_round_cache id p) p ≡ (
        record (new_round_cache id p) { sigs = insert (k.index_of p.partial_sig) p.partial_sig [] },
        true,
      )
  unfolding append_sig new_round_cache lookup
  append_sig_new id p = refl

  -- A partial of a new round is counted once by Append, after what getCache has counted.
  append_new :
      (c c' : PartialCache) (p : PartialBeaconPacket)
      → let id = round_id p.round p.previous_sig in
        let idx = k.index_of p.partial_sig in
        lookup id c.rounds ≡ none
        → make_room k c id p ≡ some c'
        → rcvd_of (append k c p) idx ≡ rcvd_of c' idx ++ id ∷ []
  unfolding append append_to count_partial rcvd_of
  append_new c c' p new room =
      let id = round_id p.round p.previous_sig in
      rw (get_cache_new c c' id p new room) (
        rw (append_sig_new id p)
          (ap or_nil (lookup-insert_self (k.index_of p.partial_sig) _ c'.rcvd)))

  -- At the limit, a partial of a new round evicts the oldest entry of its signer, whose round is still
  -- cached, and the new round is then counted twice: once by getCache and once by Append.
  pub append_at_limit :
      (c : PartialCache) (p : PartialBeaconPacket) (oldest : Bytes) (ids : List Bytes)
      (r : RoundCache)
      → let idx = k.index_of p.partial_sig in
        let id = round_id p.round p.previous_sig in
        rcvd_of c idx ≡ oldest ∷ ids
        → max_partials_per_node ≤ suc (length ids)
        → lookup id c.rounds ≡ none
        → lookup oldest c.rounds ≡ some r
        → rcvd_of (append k c p) idx ≡ (ids ++ id ∷ []) ++ id ∷ []
  append_at_limit c p oldest ids r full limit new found =
      let id = round_id p.round p.previous_sig in
      let (c', room, counted) = make_room_full c id p oldest ids r full limit found in
      append_new c c' p new room ∙ ap (λ l. l ++ id ∷ []) counted

  -- At the limit, with an oldest entry whose round is gone, a partial of a new round changes nothing.
  pub append_blocked :
      (c : PartialCache) (p : PartialBeaconPacket) (oldest : Bytes) (ids : List Bytes)
      → let idx = k.index_of p.partial_sig in
        rcvd_of c idx ≡ oldest ∷ ids
        → max_partials_per_node ≤ suc (length ids)
        → lookup (round_id p.round p.previous_sig) c.rounds ≡ none
        → lookup oldest c.rounds ≡ none
        → append k c p ≡ c
  unfolding append get_cache make_room rcvd_of open_cache append_to evict
  append_blocked c p oldest ids full limit new gone = ground arith
