-- ===== src/Sync/Client.antt =====
-- What the sync controller uses of code that is not in the repository: the client of the
-- management cluster, and the tracker of Cluster API with the clients of the workload clusters.
use turtles_etcd_restore.Base.{String, List}
use turtles_etcd_restore.Objects.{Key, Machine, Cluster}
use turtles_etcd_restore.Api.{EtcdMachineBackup}
use turtles_etcd_restore.Unstructured.{Fields}
use turtles_etcd_restore.Go.Outcome.{Reply}

pub record SyncClient : Type 1 where
  pub State : Type 0
  pub get_cluster : Key → State → Reply Cluster × State
  -- `List` of machines with `InNamespace`
  pub list_machines : String → State → Reply (List Machine) × State
  pub create_backup : EtcdMachineBackup → State → Reply (Unit {0}) × State
  -- `Tracker.Watch` on the snapshot files, for the cluster
  pub watch : Key → State → Reply (Unit {0}) × State
  -- `Tracker.GetClient`, and `List` of the snapshot files by the client that it answers
  pub get_client : Key → State → Reply (Unit {0}) × State
  pub list_snapshot_files : Key → State → Reply (List Fields) × State
