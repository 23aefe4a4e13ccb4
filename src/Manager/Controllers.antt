-- ===== src/Manager/Controllers.antt =====
-- The `SetupWithManager` functions of the three controllers and that of the webhook.
use turtles_etcd_restore.Base.{some, none}
use turtles_etcd_restore.Go.Outcome.{M, pure, on_err, ◌>>=◌}
use turtles_etcd_restore.Manager.Framework.{Framework, Handler, Watched}

module _ (f : Framework) where
  abbrev pub AnyHandler : Type 0
  AnyHandler = Handler f.ApiClient f.Tracker f.Controller

  -- `EtcdSnapshotSyncReconciler.SetupWithManager`, with the reconciler's fields; the result is the
  -- reconciler after `r.controller = c`.
  unfoldable pub setup_snapshot_sync : f.ApiClient → f.Tracker → f.Manager → M f.State AnyHandler
  setup_snapshot_sync client tracker mgr = do
    controller ←
        on_err "creating new controller"
          (f.build mgr Watched.cluster (Handler.etcd_snapshot_sync_reconciler client tracker none))
    pure (Handler.etcd_snapshot_sync_reconciler client tracker (some controller))

  -- `EtcdMachineBackupReconciler.SetupWithManager`
  unfoldable pub setup_machine_backup : AnyHandler → f.Manager → M f.State Unit
  setup_machine_backup r mgr = f.complete mgr Watched.etcd_machine_backup r

  -- `EtcdSnapshotReconciler.SetupWithManager`
  unfoldable pub setup_snapshot : AnyHandler → f.Manager → M f.State Unit
  setup_snapshot r mgr = f.complete mgr Watched.etcd_snapshot_restore r

  -- `RKE2ConfigWebhook.SetupWebhookWithManager`
  unfoldable pub setup_webhook : AnyHandler → f.Manager → M f.State Unit
  setup_webhook r mgr = f.complete_webhook mgr Watched.rke2_config r
