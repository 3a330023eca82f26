-- ===== src/Beacon/Cache.antt =====
-- chain/beacon/cache.go: the partial signatures that a node has received, by round and signer. The maps
-- hold pointers to round caches; each is reached through one key of `rounds`, so an update of one is a
-- write under its key.
pub mod Validity
pub mod Eviction
use drand.Prelude.{
  ℕ, ◌≡◌, Bool, true, false, Option, none, some, List, [], ◌∷◌, ◌++◌, map, not, ltb, leb, ◌==◌,
  if◌then◌else◌, Bytes, bytes_equal, length, filter,
}
use drand.Prelude.Int.{ℤ}
use drand.Prelude.Assoc.{Eq, Assoc, bytes_eq, int_eq, lookup, insert, delete}
use drand.Chain.Encoding.{round_to_bytes}
use drand.Chain.Crypto.{Crypto}
use drand.Chain.Block.{message}

-- drand.PartialBeaconPacket, with the fields that are read
pub record PartialBeaconPacket : Type 0 where
  pub round : ℕ
  pub previous_sig : Bytes
  pub partial_sig : Bytes

pub record RoundCache : Type 0 where
  pub round : ℕ
  pub prev : Bytes
  pub id : Bytes
  pub sigs : Assoc ℤ Bytes

pub record PartialCache : Type 0 where
  pub rounds : Assoc Bytes RoundCache
  pub rcvd : Assoc ℤ (List Bytes)

-- MaxPartialsPerNode, of constants.go
abbrev pub max_partials_per_node : ℕ
max_partials_per_node = 100

unfoldable pub new_partial_cache : PartialCache
new_partial_cache = record { rounds = []; rcvd = [] }

-- roundID
unfoldable pub round_id : ℕ → Bytes → Bytes
round_id round previous = round_to_bytes round ++ previous

unfoldable pub new_round_cache : Bytes → PartialBeaconPacket → RoundCache
new_round_cache id p = record { round = p.round; prev = p.previous_sig; id = id; sigs = [] }

-- roundCache.Len
abbrev pub len : RoundCache → ℕ
len r = length r.sigs

-- roundCache.Partials
abbrev pub partials : RoundCache → List Bytes
partials r = map (λ e. e.1) r.sigs

unfoldable pub flush_index : RoundCache → ℤ → RoundCache
flush_index r idx = record r { sigs = delete idx r.sigs }

-- A missing key of a map reads as the nil slice.
abbrev pub or_nil : Option (List Bytes) → List Bytes
or_nil none = []
or_nil (some ids) = ids

-- c.rcvd[idx]
unfoldable pub rcvd_of : PartialCache → ℤ → List Bytes
rcvd_of c idx = or_nil (lookup idx c.rcvd)

-- GetRoundCache
unfoldable pub get_round_cache : PartialCache → ℕ → Bytes → Option RoundCache
get_round_cache c round previous = lookup (round_id round previous) c.rounds

-- The eviction in getCache, of the oldest entry `to_evict` of the signer; `none` where its round is
-- not cached.
unfoldable pub evict : PartialCache → Bytes → ℤ → List Bytes → Option PartialCache
evict c id idx [] = some c
evict c id idx (to_evict ∷ ids) = elim (lookup to_evict c.rounds) [
  | none ↦ none
  | some round ↦
      let round' = flush_index round idx in
      some (record {
        rounds =
            if len round' == 0 then delete to_evict c.rounds else insert to_evict round' c.rounds;
        rcvd = insert idx (ids ++ id ∷ []) c.rcvd;
      })
]

-- FlushRounds removes the id of a flushed round from the counters of the signers in it.
unfoldable pub forget : Bytes → Assoc ℤ Bytes → Assoc ℤ (List Bytes) → Assoc ℤ (List Bytes)
forget id [] rcvd = rcvd
forget id ((idx, sig) ∷ sigs) rcvd =
    let id_slice = filter (λ idd. not (bytes_equal idd id)) (or_nil (lookup idx rcvd)) in
    forget id sigs (if length id_slice == 0 then delete idx rcvd else insert idx id_slice rcvd)

-- One turn of the loop of FlushRounds.
unfoldable pub flush_one : ℕ → Bytes → RoundCache → PartialCache → PartialCache
flush_one round id cache c =
    if ltb round cache.round
    then c
    else record { rounds = delete id c.rounds; rcvd = forget id cache.sigs c.rcvd }

-- The loop of FlushRounds, over the entries that are left to visit.
unfoldable pub flush_entries : ℕ → Assoc Bytes RoundCache → PartialCache → PartialCache
flush_entries round [] c = c
flush_entries round ((id, cache) ∷ entries) c =
    flush_entries round entries (flush_one round id cache c)

-- FlushRounds
unfoldable pub flush_rounds : PartialCache → ℕ → PartialCache
unfolding flush_entries flush_one forget
flush_rounds c round = flush_entries round c.rounds c

module _ (k : Crypto) where
  -- roundCache.append
  unfoldable pub append_sig : RoundCache → PartialBeaconPacket → RoundCache × Bool
  append_sig r p =
      let idx = k.index_of p.partial_sig in
      elim (lookup idx r.sigs) [
        | some seen ↦ (r, false)
        | none ↦ (record r { sigs = insert idx p.partial_sig r.sigs }, true)
      ]

  -- roundCache.Msg
  unfoldable pub msg : RoundCache → Bytes
  msg r = message k r.round r.prev

  -- getCache, for an id that has no round cache: at the limit, first the eviction;
  unfoldable pub make_room : PartialCache → Bytes → PartialBeaconPacket → Option PartialCache
  make_room c id p =
      let idx = k.index_of p.partial_sig in
      let ids = rcvd_of c idx in
      if leb max_partials_per_node (length ids) then evict c id idx ids else some c

  -- then the new round cache, unless the eviction gave up.
  unfoldable pub open_cache :
      PartialCache
      → Bytes
      → PartialBeaconPacket
      → Option PartialCache
      → PartialCache × Option RoundCache
  open_cache c id p none = (c, none)
  open_cache c id p (some c') =
      let round = new_round_cache id p in
      (record c' { rounds = insert id round c'.rounds }, some round)

  -- getCache
  unfoldable pub get_cache :
      PartialCache → Bytes → PartialBeaconPacket → PartialCache × Option RoundCache
  get_cache c id p = elim (lookup id c.rounds) [
    | some round ↦ (c, some round)
    | none ↦ open_cache c id p (make_room c id p)
  ]

  -- Append, after roundCache.append: the counter of the signer, if the partial is new.
  unfoldable pub count_partial :
      PartialCache → Bytes → PartialBeaconPacket → RoundCache × Bool → PartialCache
  count_partial c id p (round, false) = c
  count_partial c id p (round, true) =
      let idx = k.index_of p.partial_sig in
      record {
        rounds = insert id round c.rounds;
        rcvd = insert idx (rcvd_of c idx ++ id ∷ []) c.rcvd;
      }

  -- Append, after getCache
  unfoldable pub append_to :
      Bytes → PartialBeaconPacket → PartialCache × Option RoundCache → PartialCache
  append_to id p (c, none) = c
  append_to id p (c, some round) = count_partial c id p (append_sig round p)

  -- Append
  unfoldable pub append : PartialCache → PartialBeaconPacket → PartialCache
  append c p = let id = round_id p.round p.previous_sig in append_to id p (get_cache c id p)
