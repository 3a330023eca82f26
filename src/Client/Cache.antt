-- ===== src/Client/Cache.antt =====
-- client/cache.go: the client that keeps the results it has seen. The ARC cache of golang-lru is a
-- parameter: what it returns for a key is what was last added under it, unless it was evicted.
pub mod Answers
use drand.Prelude.{ℕ, ◌≡◌, refl, ◌⊎◌, Option, none, some, List, [], ◌∷◌, ◌==◌, if◌then◌else◌}
use drand.Client.Verify.{RandomData}

-- Cache; a lookup may reorder the cache
pub record Cache : Type 1 where
  pub State : Type 0
  pub empty : State
  pub try_get : State → ℕ → Option RandomData × State
  pub add : State → ℕ → RandomData → State
  pub try_get-empty : (round : ℕ) → (try_get empty round).0 ≡ none
  pub try_get-add :
      (c : State) (round other : ℕ) (result found : RandomData)
      → (try_get (add c round result) other).0 ≡ some found
      → ((round ≡ other) × (result ≡ found)) ⊎ ((try_get c other).0 ≡ some found)
  pub try_get-try_get :
      (c : State) (round other : ℕ) (found : RandomData)
      → (try_get (try_get c round).1 other).0 ≡ some found
      → (try_get c other).0 ≡ some found

-- nilCache
unfoldable pub nil_cache : Cache
nil_cache = record {
  State = Unit {0};
  empty = tt;
  try_get = λ c round. (none, c);
  add = λ c round result. c;
  try_get-empty = λ round. refl;
  try_get-add = λ c round other result found h. cc;
  try_get-try_get = λ c round other found h. h;
}

-- makeCache, of what the library makes of a size; none for its error
unfoldable pub make_cache : (ℕ → Option Cache) → ℕ → Option Cache
unfolding nil_cache
make_cache new_arc size = if size == 0 then some nil_cache else new_arc size

module _ (cache : Cache) where
  -- What the wrapped client answered, kept where it is a result
  unfoldable pub remember : cache.State → Option RandomData → Option RandomData × cache.State
  remember c none = (none, c)
  remember c (some val) = (some val, cache.add c val.rnd val)

  -- cachingClient.Get, from the lookup on
  unfoldable pub or_fetch :
      (ℕ → Option RandomData)
      → ℕ
      → Option RandomData × cache.State
      → Option RandomData × cache.State
  unfolding remember
  or_fetch client round (some val, c) = (some val, c)
  or_fetch client round (none, c) = remember c (client round)

  -- cachingClient.Get
  unfoldable pub cached_get :
      (ℕ → Option RandomData) → cache.State → ℕ → Option RandomData × cache.State
  unfolding or_fetch
  cached_get client c round = or_fetch client round (cache.try_get c round)

  -- cachingClient.Watch: the results pass, and the cache learns them.
  unfoldable pub cached_watch : cache.State → List RandomData → cache.State × List RandomData
  cached_watch c [] = (c, [])
  cached_watch c (result ∷ rest) =
      let (c', out) = cached_watch (cache.add c result.rnd result) rest in (c', result ∷ out)
