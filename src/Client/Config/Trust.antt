-- ===== src/Client/Config/Trust.antt =====
-- client/client.go: what the options leave of the root of trust.
use drand.Prelude.{
  true, false, not, ◌||◌, arith, ◌≡◌, refl, sym, ◌∙◌, subst, inl, inr, Option, none, some, List, [],
  ◌∷◌, Result, ok, err, Bytes, bytes_equal, bytes_equal→eq, Bool-cases, Result-cases,
}
use drand.Client.Config.{
  ClientConfig, ClientOption, ConfigError, Layer, apply_option, apply_options, make_client,
  new_client, default_config, info_differs, hash_differs, is_earlier, is_set, from, insecurely,
  with_full_chain_verification, with_watcher, with_auto_watch, with_cache_size, with_chain_hash,
  with_chain_info, with_verified_result, with_auto_watch_retry,
}

module _ (Info : Type 0) (hash : Info → Bytes) where
  -- Where both are set, the hash is that of the information.
  abbrev pub Agree : Option Bytes → Option Info → Type 0
  Agree none info = Unit {0}
  Agree (some h) none = Unit {0}
  Agree (some h) (some info) = hash info ≡ h

  abbrev pub IsConsistent : ClientConfig Info hash → Type 0
  IsConsistent cfg = Agree cfg.chain_hash cfg.chain_info

  -- Some root of trust, unless the client is to do without
  abbrev pub HasRoot : ClientConfig Info hash → Type 0
  HasRoot cfg = (cfg.insecure || is_set cfg.chain_hash || is_set cfg.chain_info) ≡ true

  abbrev IsConsistentResult : Result ConfigError (ClientConfig Info hash) → Type 0
  IsConsistentResult (ok cfg) = IsConsistent cfg
  IsConsistentResult (err e) = Unit {0}

  equal-of : (a b : Bytes) → not (bytes_equal a b) ≡ false → a ≡ b
  equal-of a b h = bytes_equal→eq a b (ground arith)

  info-Agree : (o : Option Info) (h : Bytes) → info_differs Info hash o h ≡ false → Agree (some h) o
  info-Agree none h e = tt
  info-Agree (some i) h e = equal-of (hash i) h e

  hash-Agree : (o : Option Bytes) (i : Info) → hash_differs Info hash o i ≡ false → Agree o (some i)
  hash-Agree none i e = tt
  hash-Agree (some h) i e = sym (equal-of h (hash i) e)

  apply_option-IsConsistent :
      (cfg : ClientConfig Info hash) (o : ClientOption Info hash)
      → IsConsistent cfg
      → IsConsistentResult (apply_option Info hash cfg o)
  unfolding apply_option
  apply_option-IsConsistent cfg (from c) s = s
  apply_option-IsConsistent cfg insecurely s = s
  apply_option-IsConsistent cfg (with_cache_size n) s = s
  apply_option-IsConsistent cfg with_full_chain_verification s = s
  apply_option-IsConsistent cfg with_watcher s = s
  apply_option-IsConsistent cfg with_auto_watch s = s
  apply_option-IsConsistent cfg (with_auto_watch_retry t) s = s
  apply_option-IsConsistent cfg (with_verified_result r) s =
      elim (Bool-cases (is_earlier cfg.previous_result r)) [ inl e ↦ rw e tt | inr e ↦ rw e s ]
  apply_option-IsConsistent cfg (with_chain_hash h) s =
      elim (Bool-cases (info_differs Info hash cfg.chain_info h)) [
        | inl e ↦ rw e tt
        | inr e ↦ rw e (info-Agree cfg.chain_info h e)
      ]
  apply_option-IsConsistent cfg (with_chain_info i) s =
      elim (Bool-cases (hash_differs Info hash cfg.chain_hash i)) [
        | inl e ↦ rw e tt
        | inr e ↦ rw e (hash-Agree cfg.chain_hash i e)
      ]

  apply_options-IsConsistent :
      (os : List (ClientOption Info hash)) (cfg c : ClientConfig Info hash)
      → IsConsistent cfg
      → apply_options Info hash cfg os ≡ ok c
      → IsConsistent c
  unfolding apply_options
  apply_options-IsConsistent [] cfg c s h = subst IsConsistentResult h s
  apply_options-IsConsistent (o ∷ os) cfg c s h =
      elim (Result-cases (apply_option Info hash cfg o)) [
        | inl (c', e) ↦
            let step : apply_options Info hash cfg (o ∷ os) ≡ apply_options Info hash c' os =
              rw (e, apply_options) refl in
            apply_options-IsConsistent os c' c
              (subst IsConsistentResult e (apply_option-IsConsistent cfg o s)) (sym step ∙ h)
        | inr (x, e) ↦
            let step : apply_options Info hash cfg (o ∷ os) ≡ err x = rw (e, apply_options) refl in
            cc
      ]

  make_client-HasRoot :
      (cfg : ClientConfig Info hash) (ls : List Layer)
      → make_client Info hash cfg ≡ ok ls
      → HasRoot cfg
  unfolding make_client
  make_client-HasRoot cfg ls h = ground arith

  -- A client that is made comes from a configuration that the options gave without an error, has a root
  -- of trust unless it was allowed to do without, and whose information, where it was set beside the chain
  -- hash, hashes to it.
  pub new_client-HasRoot :
      (os : List (ClientOption Info hash)) (ls : List Layer)
      → new_client Info hash os ≡ ok ls
      → (cfg : ClientConfig Info hash) × (apply_options Info hash (default_config Info hash) os
          ≡ ok cfg)
        × (make_client Info hash cfg ≡ ok ls)
        × IsConsistent cfg
        × HasRoot cfg
  unfolding new_client
  new_client-HasRoot os ls h =
      elim (Result-cases (apply_options Info hash (default_config Info hash) os)) [
        | inl (cfg, e) ↦
            let step : new_client Info hash os ≡ make_client Info hash cfg =
              rw (e, new_client) refl in
            let made : make_client Info hash cfg ≡ ok ls = sym step ∙ h in
            (
              cfg,
              e,
              made,
              apply_options-IsConsistent os (default_config Info hash) cfg tt e,
              make_client-HasRoot cfg ls made,
            )
        | inr (x, e) ↦ let step : new_client Info hash os ≡ err x = rw (e, new_client) refl in cc
      ]
