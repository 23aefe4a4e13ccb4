-- ===== src/Backup.antt =====
-- internal/controller/etcdmachinebackup_controller.go, which only reads the object.
pub mod Reads
use turtles_etcd_restore.Base.{if◌then◌else◌}
use turtles_etcd_restore.Api.{EtcdMachineBackup}
use turtles_etcd_restore.Objects.{Key}
use turtles_etcd_restore.Go.Outcome.{M, err, Reply, done, fail, api, is_not_found, pure}
use turtles_etcd_restore.Client.{Client}
use turtles_etcd_restore.Restore.Phases.{Result, no_requeue}

module _ (c : Client) where
  -- `reconcileNormal`
  unfoldable pub reconcile_normal : EtcdMachineBackup → M c.State Result
  reconcile_normal backup = pure no_requeue

  -- `reconcileDelete`
  unfoldable pub reconcile_delete : EtcdMachineBackup → M c.State Result
  reconcile_delete backup = pure no_requeue

  -- What `Reconcile` does with the answer of its `Get`.
  unfoldable pub reconcile_found : Reply EtcdMachineBackup → M c.State Result
  unfolding reconcile_normal reconcile_delete
  reconcile_found (fail e) s = if is_not_found e then pure no_requeue s else (err (api e), s)
  reconcile_found (done backup) s =
      if backup.deleting then reconcile_delete backup s else reconcile_normal backup s

  -- `Reconcile`
  unfoldable pub reconcile : Key → M c.State Result
  unfolding reconcile_found
  reconcile key s = let (found, s') = c.get_backup key s in reconcile_found found s'
