-- ===== src/Tests/RefusedRuns.antt =====
-- A server that refuses to pause a cluster.
use turtles_etcd_restore.Base.{◌≡◌, refl}
use turtles_etcd_restore.Go.Outcome.{fail, conflict}
use turtles_etcd_restore.Client.{Client}
use turtles_etcd_restore.Restore.Reconcile.{reconcile_normal}
use turtles_etcd_restore.Restore.Refused.{reconcile_normal-Keeps}
use turtles_etcd_restore.Tests.World.{World, memory}
use turtles_etcd_restore.Tests.RestoreRuns.{codec, halted}

abbrev locked : Client
locked = record {
  State = World;
  get_restore = memory.get_restore;
  get_cluster = memory.get_cluster;
  get_backup = memory.get_backup;
  get_config = memory.get_config;
  get_secret = memory.get_secret;
  list_machines = memory.list_machines;
  patch_cluster = λ base obj w. (fail conflict, w);
  patch_secret = memory.patch_secret;
  patch_restore = memory.patch_restore;
  patch_restore_status = memory.patch_restore_status;
}

abbrev Untouched : World → Type 0
Untouched w = w.secrets ≡ halted.store.secrets

reconcile_normal-Keeps_example : Untouched (reconcile_normal locked codec halted).1.store
reconcile_normal-Keeps_example =
    reconcile_normal-Keeps locked codec {P = Untouched} (λ key w h. h) (λ namespace name w h. h)
      (λ key w h. h) (λ base obj w h. h) (λ base obj w. (conflict, refl)) halted refl
