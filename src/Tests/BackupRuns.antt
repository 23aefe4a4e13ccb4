-- ===== src/Tests/BackupRuns.antt =====
-- The reconciliation of a backup in the memory.
use turtles_etcd_restore.Base.{◌≡◌}
use turtles_etcd_restore.Objects.{Key}
use turtles_etcd_restore.Backup.{reconcile}
use turtles_etcd_restore.Backup.Reads.{Answers, reconcile_only_reads}
use turtles_etcd_restore.Tests.World.{memory}
use turtles_etcd_restore.Tests.RestoreRuns.{halted}

abbrev key : Key
key = record { namespace = "ns"; name = "snap" }

reconcile_only_reads_example :
    ((reconcile memory key halted.store).1 ≡ halted.store)
    × Answers (memory.get_backup key halted.store).0 (reconcile memory key halted.store).0
reconcile_only_reads_example = reconcile_only_reads memory key halted.store
