-- ===== src/Client/Config.antt =====
-- client/client.go, client/http/http.go: the options of a client, the chain of clients that is built of
-- them, and the client of HTTP servers. Clients are handles; what they answer, and what a server sends, are
-- arguments, and so is the hash of the information on a chain.
pub mod Trust
use drand.Prelude.{
  ℕ, ◌+◌, Bool, true, false, not, ◌&&◌, ◌||◌, Option, none, some, List, [], ◌∷◌, ◌++◌, length, ltb,
  ◌==◌, if◌then◌else◌, Result, ok, err, Bytes, bytes_equal,
}
use drand.Prelude.Int.{ℤ, pos}
use drand.Client.Verify.{RandomData}

pub data ConfigError : Type 0 where
  no_root_of_trust no_points_of_contact non_matching_hash non_matching_group earlier_result
        no_chain_info :
      ConfigError
  client_error client_closed insufficient_response unexpected_group no_public_key : ConfigError

-- The chain that makeClient builds, from the outside in
pub data Layer : Type 0 where
  -- the aggregator: whether there is a passive client, and the automatic watch with its retry
  aggregating : Bool → Bool → ℤ → Layer
  caching : ℕ → Layer
  -- the optimizing client over so many verifying clients, and whether the last is passive
  optimizing : ℕ → Bool → Layer
  -- the verifying clients: the point of trust and whether they are strict
  verifying : Option RandomData → Bool → Layer

abbrev pub is_set {ℓ} : {A : Type ℓ} → Option A → Bool
is_set none = false
is_set (some x) = true

abbrev pub is_earlier : Option RandomData → RandomData → Bool
is_earlier none r = false
is_earlier (some p) r = ltb r.rnd p.rnd

module _ (Info : Type 0) (hash : Info → Bytes) where
  -- clientConfig; a watcher is whether one is set.
  pub record ClientConfig : Type 0 where
    pub clients : List ℕ
    pub watcher : Bool
    pub chain_hash : Option Bytes
    pub chain_info : Option Info
    pub previous_result : Option RandomData
    pub full_verify : Bool
    pub insecure : Bool
    pub cache_size : ℕ
    pub auto_watch : Bool
    pub auto_watch_retry : ℤ

  -- New, before the options
  abbrev pub default_config : ClientConfig
  default_config = record {
    clients = [];
    watcher = false;
    chain_hash = none;
    chain_info = none;
    previous_result = none;
    full_verify = false;
    insecure = false;
    cache_size = 32;
    auto_watch = false;
    auto_watch_retry = pos 0;
  }

  -- The options; the hash of with_chain_hash is one that is not nil.
  pub data ClientOption : Type 0 where
    from : List ℕ → ClientOption
    insecurely with_full_chain_verification with_watcher with_auto_watch : ClientOption
    with_cache_size : ℕ → ClientOption
    with_chain_hash : Bytes → ClientOption
    with_chain_info : Info → ClientOption
    with_verified_result : RandomData → ClientOption
    with_auto_watch_retry : ℤ → ClientOption

  abbrev pub info_differs : Option Info → Bytes → Bool
  info_differs none h = false
  info_differs (some info) h = not (bytes_equal (hash info) h)

  abbrev pub hash_differs : Option Bytes → Info → Bool
  hash_differs none info = false
  hash_differs (some h) info = not (bytes_equal h (hash info))

  -- The options, From to WithAutoWatchRetry
  unfoldable pub apply_option : ClientConfig → ClientOption → Result ConfigError ClientConfig
  apply_option cfg (from c) = ok (record cfg { clients = c })
  apply_option cfg insecurely = ok (record cfg { insecure = true })
  apply_option cfg (with_cache_size size) = ok (record cfg { cache_size = size })
  apply_option cfg (with_chain_hash h) =
      if info_differs cfg.chain_info h
      then err non_matching_hash
      else ok (record cfg { chain_hash = some h })
  apply_option cfg (with_chain_info info) =
      if hash_differs cfg.chain_hash info
      then err non_matching_group
      else ok (record cfg { chain_info = some info })
  apply_option cfg (with_verified_result r) =
      if is_earlier cfg.previous_result r
      then err earlier_result
      else ok (record cfg { previous_result = some r })
  apply_option cfg with_full_chain_verification = ok (record cfg { full_verify = true })
  apply_option cfg with_watcher = ok (record cfg { watcher = true })
  apply_option cfg with_auto_watch = ok (record cfg { auto_watch = true })
  apply_option cfg (with_auto_watch_retry retry) = ok (record cfg { auto_watch_retry = retry })

  -- New: the first error ends it.
  unfoldable pub apply_options : ClientConfig → List ClientOption → Result ConfigError ClientConfig
  unfolding apply_option
  apply_options cfg [] = ok cfg
  apply_options cfg (o ∷ os) = elim (apply_option cfg o) [
    | err e ↦ err e
    | ok c ↦ apply_options c os
  ]

  -- tryPopulateInfo, with what each client answers and whether the time is over after an error: the
  -- information, or whether there is an error
  unfoldable pub populate : List (Option Info × Bool) → Option Info
  populate [] = none
  populate ((some info, over) ∷ rest) = some info
  populate ((none, over) ∷ rest) = let later = populate rest in if over then none else later

  unfoldable pub try_populate_info : ClientConfig → List (Option Info × Bool) → ClientConfig
  unfolding populate
  try_populate_info cfg answers = elim cfg.chain_info [
    | some info ↦ cfg
    | none ↦ record cfg { chain_info = populate answers }
  ]

  -- makeClient and makeOptimizingClient, where the cache and the watcher can be made
  unfoldable pub make_client : ClientConfig → Result ConfigError (List Layer)
  make_client cfg =
      if not cfg.insecure && not (is_set cfg.chain_hash) && not (is_set cfg.chain_info)
      then err no_root_of_trust
      else if (length cfg.clients == 0) && not cfg.watcher
      then err no_points_of_contact
      else (let count = if cfg.watcher then length cfg.clients + 1 else length cfg.clients in
          let inner =
            optimizing count cfg.watcher ∷ verifying cfg.previous_result cfg.full_verify ∷ [] in
          ok (
            aggregating cfg.watcher cfg.auto_watch cfg.auto_watch_retry
            ∷ (if ltb 0 cfg.cache_size then caching cfg.cache_size ∷ inner else inner)))

  -- New, and Wrap, which sets the clients last
  unfoldable pub new_client : List ClientOption → Result ConfigError (List Layer)
  unfolding apply_options make_client
  new_client options = elim (apply_options default_config options) [
    | err e ↦ err e
    | ok cfg ↦ make_client cfg
  ]

  unfoldable pub wrap : List ℕ → List ClientOption → Result ConfigError (List Layer)
  unfolding new_client
  wrap clients options = new_client (options ++ from clients ∷ [])

  -- FetchChainInfo of the HTTP client: what the server sent, none for an error or without a key, against
  -- the hash that is asked for; none for the information that the client has.
  unfoldable pub fetched : Option Bytes → Option Info → Result ConfigError Info
  fetched wanted none = err client_error
  fetched wanted (some info) = if hash_differs wanted info then err unexpected_group else ok info

  unfoldable pub fetch_chain_info :
      Option Info → Option Bytes → Bool → Option Info → Result ConfigError Info
  unfolding fetched
  fetch_chain_info (some info) wanted closed answer = ok info
  fetch_chain_info none wanted closed answer =
      if closed then err client_closed else fetched wanted answer

-- Get of the HTTP client: the path of the request, and what is made of the answer
pub data HttpPath : Type 0 where
  latest : HttpPath
  public_round : ℕ → HttpPath

unfoldable pub path_of : ℕ → HttpPath
path_of round = if round == 0 then latest else public_round round

abbrev pub has_bytes : Option Bytes → Bool
has_bytes none = false
has_bytes (some b) = not (length b == 0)

unfoldable pub http_get : Bool → Option RandomData → Result ConfigError RandomData
http_get closed none = if closed then err client_closed else err client_error
http_get closed (some r) =
    if closed
    then err client_closed
    else if (length r.sig == 0) || not (has_bytes r.previous_signature)
    then err insufficient_response
    else ok r

-- ForURLs: the servers whose clients are made, in the order of the list that is returned. New fetches the
-- information; once a server gave it, no other is asked.
unfoldable pub for_urls {ℓ} : {I : Type ℓ} → (ℕ → Option I) → Option I → List ℕ → List ℕ → List ℕ
for_urls info_of none skipped [] = []
for_urls info_of (some info) skipped [] = skipped
for_urls info_of (some info) skipped (u ∷ us) = u ∷ for_urls info_of (some info) skipped us
for_urls info_of none skipped (u ∷ us) = elim (info_of u) [
  | some info ↦ u ∷ for_urls info_of (some info) skipped us
  | none ↦ for_urls info_of none (skipped ++ u ∷ []) us
]
