-- ===== src/Api/Phase.antt =====
-- The constants of `ETCDSnapshotPhase`, a string type (api/v1alpha1/etcdsnapshotrestore_types.go).
use turtles_etcd_restore.Base.{String}

abbrev pub started : String
started = "Started"

abbrev pub shutdown : String
shutdown = "Shutdown"

abbrev pub restore : String
restore = "Restore"

abbrev pub post_restore_pod_cleanup : String
post_restore_pod_cleanup = "PostRestorePodCleanup"

abbrev pub initial_restart_cluster : String
initial_restart_cluster = "InitialRestartCluster"

abbrev pub post_restore_node_cleanup : String
post_restore_node_cleanup = "PostRestoreNodeCleanup"

abbrev pub restart_cluster : String
restart_cluster = "RestartCluster"

abbrev pub finished : String
finished = "Finished"

abbrev pub failed : String
failed = "Failed"
