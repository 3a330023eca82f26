-- ===== src/Beacon/Start/Started.antt =====
-- NewHandler of chain/beacon/node.go, and what its handler makes of the chain.
use drand.Prelude.{
  ℕ, ◌+◌, ◌^◌, ◌≡◌, ◌<◌, refl, sym, ◌∙◌, subst, inl, inr, Bool, true, false, none, some, ap, [], ok,
  err, Bytes, Result-cases,
}
use drand.Chain.Block.{Beacon, genesis_beacon}
use drand.Chain.Crypto.{Crypto}
use drand.Store.{OrderedStore}
use drand.Beacon.Append.{new_append_store, new_callback_store, add_callback}
use drand.Beacon.Append.Verified.{IsSound}
use drand.Beacon.Handler.{Handler}
use drand.Beacon.Handler.Steps.{IsGuarded}
use drand.Beacon.Cache.{new_partial_cache}
use drand.Beacon.Aggregator.{ChainStore, CryptoStore}
use drand.Beacon.Start.{
  chainstore_id, genesis_not_stored, ConfigGroup, ConfigShare, new_chain_store, new_crypto_store,
  handler_of, with_genesis, new_handler,
}
use drand.Beacon.Start.Sound.{IsChain, IsStartable, put_genesis-IsChain}
use drand.Beacon.Start.Runs.{Run, IsGrown, Run-IsGrown}

module _ (O : OrderedStore) (k : Crypto) (addr : Bytes) (g : ConfigGroup O.base k)
    (s : ConfigShare O.base k) where
  -- A handler with the keys that it is given, whose chain is sound up to its last beacon `l`, and that
  -- guards its partials
  pub record IsStarted (l : Beacon) (h : Handler O.base k) : Type 0 where
    pub keys : h.chain.crypto ≡ new_crypto_store O.base k g s
    pub latest : h.chain.last_beacon ≡ l
    pub sound : IsSound O.base k g.key h.chain.store l
    pub guarded : IsGuarded O.base k h.chain.crypto h

  abbrev chain_at : O.base.State → Beacon → ChainStore O.base k
  chain_at db l = record {
    crypto = new_crypto_store O.base k g s;
    last_beacon = l;
    cache = new_partial_cache;
    store =
        add_callback O.base (new_callback_store O.base (record { store = db; last = some l }))
          chainstore_id;
    catchup_beacons = none;
    follows = [];
  }

  chain_at-IsStarted :
      (db : O.base.State) (l : Beacon)
      → O.base.IsValid db
      → IsChain O k g.key g.genesis_seed db l
      → IsStarted l (handler_of O.base k addr g s (chain_at db l))
  unfolding new_callback_store add_callback
  chain_at-IsStarted db l valid chain = record {
    keys = refl;
    latest = refl;
    sound = record {
      current = record { valid = valid; cached = refl; stored = chain.stored };
      linked = chain.linked;
      verified = chain.verified;
    };
    guarded = record { keys = refl; queued = tt; others = tt };
  }

  new_append_store_lem :
      (db : O.base.State) (l : Beacon)
      → O.base.last db ≡ ok l
      → new_append_store O.base db ≡ record { store = db; last = some l }
  unfolding new_append_store
  new_append_store_lem db l stored = rw (stored, new_append_store) refl

  with_genesis-IsStarted :
      (db db' : O.base.State) (l : Beacon) (h : Handler O.base k)
      → IsStartable O k g.key g.genesis_seed db l
      → O.base.put db (genesis_beacon g.genesis_seed) ≡ ok db'
      → with_genesis O.base k addr g s (ok db') ≡ ok h
      → IsStarted l h
  unfolding with_genesis new_chain_store
  with_genesis-IsStarted db db' l h start put made =
      let (valid, chain) = put_genesis-IsChain O k g.key g.genesis_seed db db' l start put in
      let step : with_genesis O.base k addr g s (ok db')
          ≡ ok (handler_of O.base k addr g s (chain_at db' l)) =
        rw (chain.stored, new_append_store_lem db' l chain.stored, with_genesis, new_chain_store)
          refl in
      let same : handler_of O.base k addr g s (chain_at db' l) ≡ h = cc in
      subst (IsStarted l) same (chain_at-IsStarted db' l valid chain)

  new_handler-IsStarted :
      (is_found : Bool) (db : O.base.State) (l : Beacon) (h : Handler O.base k)
      → IsStartable O k g.key g.genesis_seed db l
      → new_handler O.base k addr is_found (some g) (some s) db ≡ ok h
      → IsStarted l h
  unfolding new_handler with_genesis
  new_handler-IsStarted false db l h start made = cc
  new_handler-IsStarted true db l h start made =
      elim (Result-cases (O.base.put db (genesis_beacon g.genesis_seed))) [
        | inl (db', put) ↦ with_genesis-IsStarted db db' l h start put (
            let step : new_handler O.base k addr true (some g) (some s) db
                ≡ with_genesis O.base k addr g s (ok db') =
              rw (put, new_handler) refl in
            sym step ∙ made)
        | inr (e, refused) ↦
            let step : new_handler O.base k addr true (some g) (some s) db
                ≡ err (genesis_not_stored e) =
              rw (refused, new_handler, with_genesis) refl in
            cc
      ]

  -- A handler that starts on an empty database or on the chain of its group, and runs however its loops,
  -- its aggregator and its syncer interleave, whatever arrives: it starts at the last beacon `l`, its
  -- chain stays linked without gaps and verified, loses no round, and has no more than `n` rounds after
  -- `l`, where the run can add `n` beacons. The group's polynomial commits to its key, and the rounds
  -- stay below 2 ^ 64.
  pub new_handler-IsGrown :
      (is_found : Bool) (db : O.base.State) (l : Beacon) (h h' : Handler O.base k) (n : ℕ)
      → k.commit g.poly ≡ g.key
      → IsStartable O k g.key g.genesis_seed db l
      → l.round + n < 2 ^ 64
      → new_handler O.base k addr is_found (some g) (some s) db ≡ ok h
      → Run O.base k h n h'
      → IsStarted l h × IsGrown O.base k h l.round n h'
  unfolding new_crypto_store
  new_handler-IsGrown is_found db l h h' n keyed start room made run =
      let st = new_handler-IsStarted is_found db l h start made in
      let pk = ap (λ (c : CryptoStore k). c.public_key) st.keys in
      let poly = ap (λ (c : CryptoStore k). k.commit c.poly) st.keys in
      (
        st,
        Run-IsGrown O.base k h l n h' (poly ∙ keyed ∙ sym pk)
            (subst (λ t. IsSound O.base k t h.chain.store l) (sym pk) st.sound) room run,
      )
