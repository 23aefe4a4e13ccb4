-- ===== src/Backup/Reads.antt =====
-- A reconciliation of a backup reads it and does nothing else.
use turtles_etcd_restore.Base.{◌≡◌, ◌≢◌, refl, Bool, true, false, if◌then◌else◌}
use turtles_etcd_restore.Api.{EtcdMachineBackup}
use turtles_etcd_restore.Objects.{Key}
use turtles_etcd_restore.Go.Outcome.{
  Outcome, ok, err, Reply, done, fail, ApiError, not_found, already_exists, conflict, other, api,
  pure,
}
use turtles_etcd_restore.Client.{Client}
use turtles_etcd_restore.Restore.Phases.{Result, no_requeue}
use turtles_etcd_restore.Backup.{reconcile, reconcile_found, reconcile_normal, reconcile_delete}

-- What is to come of the answer of the read: a backup and the error that it is missing are a
-- success without a further run, and any other error is handed on.
pub data Answers : Reply EtcdMachineBackup → Outcome Result → Type 0 where
  found : (backup : EtcdMachineBackup) → Answers (done backup) (ok no_requeue)
  missing : Answers (fail not_found) (ok no_requeue)
  failed : (e : ApiError) → e ≢ not_found → Answers (fail e) (err (api e))

module _ (c : Client) where
  found_reads :
      (r : Reply EtcdMachineBackup) (s : c.State)
      → ((reconcile_found c r s).1 ≡ s) × Answers r (reconcile_found c r s).0
  unfolding reconcile_found reconcile_normal reconcile_delete pure
  found_reads (done backup) s = either backup.deleting
    where
      ended : Outcome Result × c.State
      ended = (ok no_requeue, s)

      either :
          (b : Bool)
          → ((if b then ended else ended).1 ≡ s)
            × Answers (done backup) (if b then ended else ended).0
      either true = (refl, found backup)
      either false = (refl, found backup)
  found_reads (fail not_found) s = (refl, missing)
  found_reads (fail already_exists) s = (refl, failed already_exists (λ e. cc))
  found_reads (fail conflict) s = (refl, failed conflict (λ e. cc))
  found_reads (fail (other x)) s = (refl, failed (other x) (λ e. cc))

  -- A reconciliation of a backup leaves the state as its one read leaves it. It succeeds without a
  -- further run where the read answers a backup, also one that is being deleted, or that the backup
  -- is missing, and it fails with the error of the read where that is another one.
  pub reconcile_only_reads :
      (key : Key) (s : c.State)
      → ((reconcile c key s).1 ≡ (c.get_backup key s).1)
        × Answers (c.get_backup key s).0 (reconcile c key s).0
  unfolding reconcile
  reconcile_only_reads key s = found_reads (c.get_backup key s).0 (c.get_backup key s).1
