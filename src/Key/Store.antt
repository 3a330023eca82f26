-- ===== src/Key/Store.antt =====
-- key/store.go: the files of a node. The TOML library writes a structure and reads it back; a file that was
-- not written, or whose folder is not there, is none. Whether the system lets a file be written is an
-- argument.
use drand.Prelude.{
  ◌≡◌, ◌≢◌, ◌≤◌, refl, Bool, true, not, Option, none, some, [], length, if◌then◌else◌, Result, ok,
  err,
}
use drand.Key.Suite.{Suite}
use drand.Key.Identity.{KeyError, Pair, Share}
use drand.Key.Group.{Group, minimum_t, get_genesis_seed}
use drand.Key.Toml.{
  PairToml, PublicToml, ShareToml, GroupToml, TomlError, pair_to_toml, pair_from_toml,
  identity_to_toml, identity_from_toml, share_to_toml, share_from_toml, group_to_toml,
  group_from_toml,
}
use drand.Key.Toml.RoundTrip.{
  scalar-back, identity-back, share_from_toml-share_to_toml, group_from_toml-group_to_toml,
}

pub data FileError : Type 0 where
  not_saved not_found : FileError
  bad_private bad_public bad_share : KeyError → FileError
  bad_group : TomlError → FileError

pub record FileStore : Type 0 where
  pub private_key_file : Option PairToml
  pub public_key_file : Option PublicToml
  pub share_file : Option ShareToml
  pub dist_key_file : Option (Unit {0})
  pub group_file : Option GroupToml

module _ (K : Suite) where
  -- SaveKeyPair: the private key first
  unfoldable pub save_key_pair :
      FileStore → Pair K → Bool → Bool → FileStore × Result FileError (Unit {0})
  unfolding pair_to_toml identity_to_toml
  save_key_pair f p first second =
      if not first
      then (f, err not_saved)
      else (let half : FileStore = record f { private_key_file = some (pair_to_toml K p) } in
          if not second
          then (half, err not_saved)
          else (record half { public_key_file = some (identity_to_toml K p.public) }, ok tt))

  -- LoadKeyPair
  unfoldable pub load_public : K.Scalar → Option PublicToml → Result FileError (Pair K)
  unfolding identity_from_toml
  load_public key none = err not_found
  load_public key (some t) = elim (identity_from_toml K t) [
    | err e ↦ err (bad_public e)
    | ok i ↦ ok (record { key = key; public = i })
  ]

  unfoldable pub load_private : FileStore → Option PairToml → Result FileError (Pair K)
  unfolding load_public pair_from_toml
  load_private f none = err not_found
  load_private f (some t) = elim (pair_from_toml K t) [
    | err e ↦ err (bad_private e)
    | ok key ↦ load_public key f.public_key_file
  ]

  unfoldable pub load_key_pair : FileStore → Result FileError (Pair K)
  unfolding load_private
  load_key_pair f = load_private f f.private_key_file

  -- SaveShare and LoadShare
  unfoldable pub save_share : FileStore → Share K → Bool → FileStore × Result FileError (Unit {0})
  unfolding share_to_toml
  save_share f s saves =
      if not saves
      then (f, err not_saved)
      else (record f { share_file = some (share_to_toml K s) }, ok tt)

  unfoldable pub load_share_file : Option ShareToml → Result FileError (Share K)
  unfolding share_from_toml
  load_share_file none = err not_found
  load_share_file (some t) = elim (share_from_toml K t) [ err e ↦ err (bad_share e) | ok s ↦ ok s ]

  unfoldable pub load_share : FileStore → Result FileError (Share K)
  unfolding load_share_file
  load_share f = load_share_file f.share_file

  -- SaveGroup and LoadGroup
  unfoldable pub save_group : FileStore → Group K → Bool → FileStore × Result FileError (Unit {0})
  unfolding group_to_toml
  save_group f g saves =
      if not saves
      then (f, err not_saved)
      else (record f { group_file = some (group_to_toml K g) }, ok tt)

  unfoldable pub load_group_file : Option GroupToml → Result FileError (Group K)
  unfolding group_from_toml
  load_group_file none = err not_found
  load_group_file (some t) = elim (group_from_toml K t) [ err e ↦ err (bad_group e) | ok g ↦ ok g ]

  unfoldable pub load_group : FileStore → Result FileError (Group K)
  unfolding load_group_file
  load_group f = load_group_file f.group_file

  -- Reset: the key pair stays.
  unfoldable pub reset : FileStore → FileStore
  reset f = record f { dist_key_file = none; share_file = none; group_file = none }

  -- A key pair that was saved is loaded again.
  pub load_key_pair-save_key_pair :
      (f : FileStore) (p : Pair K) → load_key_pair (save_key_pair f p true true).0 ≡ ok p
  unfolding load_key_pair save_key_pair pair_from_toml pair_to_toml load_private load_public
  load_key_pair-save_key_pair f p =
      rw (scalar-back K p.key, load_private, pair_from_toml)
        (rw (identity-back K p.public, load_public) refl)

  -- A share and a group that were saved one after the other are both loaded again, the group with its seed.
  pub load-saved :
      (f : FileStore) (s : Share K) (g : Group K)
      → minimum_t (length g.nodes) ≤ g.threshold
      → g.threshold ≤ length g.nodes
      → (get_genesis_seed K g).0 ≢ []
      → let saved = (save_group (save_share f s true).0 g true).0 in
        (load_share saved ≡ ok s)
        × (load_group saved ≡ ok (record g { genesis_seed = some (get_genesis_seed K g).0 }))
  unfolding load_share load_group save_share save_group load_share_file load_group_file
  load-saved f s g enough few some_seed = (
    rw (share_from_toml-share_to_toml K s, load_share_file) refl,
    rw (group_from_toml-group_to_toml K g enough few some_seed, load_group_file) refl,
  )
