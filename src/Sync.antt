-- ===== src/Sync.antt =====
-- internal/controller/etcdsnaphotsync_controller.go: snapshot files of the workload clusters
-- become `EtcdMachineBackup` objects of the management cluster.
pub mod Client
pub mod Extract
pub mod Reconcile
pub mod Find
pub mod Fields
pub mod Laws
pub mod Created
pub mod Backups
pub mod Whole
pub mod Placed
