-- ===== src/Tests/RestartTests.antt =====
-- A daemon that starts again from its files.
use drand.Prelude.{◌&&◌, ◌≡◌, refl, false, true, none, some, [], ◌∷◌, arith, ok, bytes_equal}
use drand.Key.Identity.{Share}
use drand.Key.Group.{Group, find, minimum_t, get_genesis_seed}
use drand.Key.Store.{FileStore}
use drand.Core.Commands.{new_drand, new_beacon, load_drand}
use drand.Core.Commands.Steps.{Reach, here, then_step, begins_dkg, waits, ends, starts, IsComplete}
use drand.Core.Commands.Complete.{is_incomplete, Reach-IsComplete}
use drand.Core.Daemon.{Drand, DkgResult, run_dkg_begin, wait_dkg, run_dkg_end}
use drand.Core.Commands.Restored.{saved_files, load_drand-saved_files}
use drand.Tests.SetupTests.{leader_pair, numbers, pair_group}

abbrev no_files : FileStore
no_files = record {
  private_key_file = none;
  public_key_file = none;
  share_file = none;
  dist_key_file = none;
  group_file = none;
}

abbrev own_share : Share numbers
own_share = record { commits = 3 ∷ 4 ∷ []; index = 0; value = 5 }

abbrev seeded_group : Group numbers
seeded_group = record pair_group { genesis_seed = some (9 ∷ []) }

load_drand-saved_files_example :
    load_drand numbers false true true
      (saved_files numbers no_files leader_pair own_share seeded_group)
    ≡ ok (record (new_drand numbers leader_pair) {
      group = some seeded_group;
      share = some own_share;
      dkg_done = true;
    })
unfolding get_genesis_seed minimum_t
load_drand-saved_files_example =
    load_drand-saved_files numbers no_files leader_pair own_share seeded_group false (omega arith)
      (omega arith) (λ e. cc)

-- A new daemon runs a key generation in which both nodes qualify, and starts its beacon.
abbrev waiting_daemon : Drand numbers
waiting_daemon = run_dkg_begin numbers (new_drand numbers leader_pair) 1 true pair_group

abbrev dkg_result : DkgResult numbers
dkg_result = record { qual = 0 ∷ 1 ∷ []; share = own_share }

abbrev finished_daemon : Drand numbers
finished_daemon = (wait_dkg numbers waiting_daemon (some dkg_result) true true).0

abbrev done_daemon : Drand numbers
done_daemon = (run_dkg_end numbers 1 (finished_daemon, ok pair_group)).0

abbrev started_daemon : Drand numbers
started_daemon = (new_beacon numbers done_daemon true true).0

new_drand-IsComplete : IsComplete numbers (new_drand numbers leader_pair) false
new_drand-IsComplete = record { matched = λ s h. cc; kept = λ h. cc; done = λ h. cc }

finished_run : Reach numbers (new_drand numbers leader_pair) false finished_daemon true
unfolding wait_dkg run_dkg_begin
finished_run = then_step (then_step here (begins_dkg 1 true pair_group)) (waits (some dkg_result))

Reach-IsComplete_example :
    IsComplete numbers started_daemon true
    × ((started_daemon.dkg_done && is_incomplete (new_beacon numbers started_daemon true true).1)
        ≡ false)
Reach-IsComplete_example =
    Reach-IsComplete numbers (new_drand numbers leader_pair) false started_daemon true
      new_drand-IsComplete
      (then_step (then_step finished_run (ends 1 pair_group refl)) (starts true true)) true true

started_daemon_runs : (started_daemon.has_beacon ≡ true) × (started_daemon.dkg_done ≡ true)
unfolding new_beacon run_dkg_end wait_dkg run_dkg_begin find bytes_equal
started_daemon_runs = (refl, refl)
