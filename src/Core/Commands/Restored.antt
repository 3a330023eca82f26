-- ===== src/Core/Commands/Restored.antt =====
-- core/drand.go: what a daemon is after a restart.
use drand.Prelude.{◌≡◌, ◌≢◌, ◌≤◌, refl, true, false, some, [], length, ok, Bool}
use drand.Key.Suite.{Suite}
use drand.Key.Identity.{Pair, Share}
use drand.Key.Group.{Group, minimum_t, get_genesis_seed}
use drand.Key.Store.{
  FileStore, save_key_pair, load_key_pair, load_private, load_share, load_group, save_share,
  save_group, load_key_pair-save_key_pair, load-saved,
}
use drand.Core.Daemon.{Drand}
use drand.Core.Commands.{new_drand, init_drand, restore, load_drand}

module _ (K : Suite) where
  -- The files after a key pair was saved, and a share and a group after it
  abbrev pub saved_files : FileStore → Pair K → Share K → Group K → FileStore
  saved_files f p s g =
      (save_group K (save_share K (save_key_pair K f p true true).0 s true).0 g true).0

  load_key_pair-saved :
      (f : FileStore) (p : Pair K) (s : Share K) (g : Group K)
      → load_key_pair K (saved_files f p s g) ≡ ok p
  unfolding load_key_pair load_private save_share save_group
  load_key_pair-saved f p s g = load_key_pair-save_key_pair K f p

  init_drand_lem :
      (insecure : Bool) (files : FileStore) (p : Pair K)
      → load_key_pair K files ≡ ok p
      → init_drand K insecure true true files ≡ ok (new_drand K p)
  unfolding init_drand
  init_drand_lem true files p e = rw e refl
  init_drand_lem false files p e = rw e refl

  restore_lem :
      (d : Drand K) (files : FileStore) (g : Group K) (s : Share K)
      → load_group K files ≡ ok g
      → load_share K files ≡ ok s
      → restore K d files ≡ ok (record d { group = some g; share = some s; dkg_done = true })
  unfolding restore
  restore_lem d files g s e h = rw (e, h, restore) refl

  -- A daemon that saved its key pair, its share and its group, with a threshold from the minimum to the
  -- number of nodes and a seed that is not empty, is loaded with all of them, private key included, the
  -- group with its seed set, and with its key generation done, where the gateways start: insecure, or
  -- with both paths given.
  pub load_drand-saved_files :
      (f : FileStore) (p : Pair K) (s : Share K) (g : Group K) (insecure : Bool)
      → minimum_t (length g.nodes) ≤ g.threshold
      → g.threshold ≤ length g.nodes
      → (get_genesis_seed K g).0 ≢ []
      → load_drand K insecure true true (saved_files f p s g)
        ≡ ok (record (new_drand K p) {
          group = some (record g { genesis_seed = some (get_genesis_seed K g).0 });
          share = some s;
          dkg_done = true;
        })
  unfolding load_drand
  load_drand-saved_files f p s g insecure low high seeded =
      let (share_back, group_back) =
        load-saved K (save_key_pair K f p true true).0 s g low high seeded in
      let files = saved_files f p s g in
      rw (init_drand_lem insecure files p (load_key_pair-saved f p s g), load_drand)
        (restore_lem (new_drand K p) files
          (record g { genesis_seed = some (get_genesis_seed K g).0 }) s group_back share_back)
