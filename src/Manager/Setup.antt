-- ===== src/Manager/Setup.antt =====
-- `setupChecks`, `setupReconcilers` and `setupWebhooks` of cmd/main.go.
use turtles_etcd_restore.Manager.Framework.{Framework, Process, Handler, exit_on_err, ◌>>=◌, ◌>>◌}
use turtles_etcd_restore.Manager.Controllers.{
  setup_snapshot_sync, setup_machine_backup, setup_snapshot, setup_webhook,
}

module _ (f : Framework) where
  -- `setupChecks`
  unfoldable pub setup_checks : f.Manager → Process f.State Unit
  setup_checks mgr = do
    exit_on_err (f.add_readyz_check mgr "webhook" (f.started_checker mgr))
    exit_on_err (f.add_healthz_check mgr "webhook" (f.started_checker mgr))

  -- `setupReconcilers`
  unfoldable pub setup_reconcilers : f.Manager → Process f.State Unit
  setup_reconcilers mgr = do
    secret_caching_client ←
        exit_on_err (f.new_client (f.manager_config mgr) (f.http_client mgr) (f.cache mgr))
    tracker ←
        exit_on_err
          (f.new_cluster_cache_tracker mgr secret_caching_client "etcd-restore-controller")
    exit_on_err (setup_snapshot_sync f (f.client mgr) tracker mgr)
    exit_on_err (setup_machine_backup f (Handler.etcd_machine_backup_reconciler (f.client mgr)) mgr)
    exit_on_err (setup_snapshot f (Handler.etcd_snapshot_reconciler (f.client mgr)) mgr)

  -- `setupWebhooks`
  unfoldable pub setup_webhooks : f.Manager → Process f.State Unit
  setup_webhooks mgr =
      exit_on_err (setup_webhook f (Handler.rke2_config_webhook (f.client mgr)) mgr)
