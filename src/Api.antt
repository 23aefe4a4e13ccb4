-- ===== src/Api.antt =====
-- api/v1alpha1: the phases of a restore (etcdsnapshotrestore_types.go) and the two custom
-- resources as the controllers use them; Structs has them as they lie in memory, with the lists and
-- with the conditions, which no controller reads or writes.
pub mod Phase
pub mod Memory
pub mod Structs
pub mod Kinds
pub mod DeepCopy
pub mod Register
use turtles_etcd_restore.Base.{String, Bool}

-- `ETCDSnapshotSpec`
pub record EtcdSnapshotSpec : Type 0 where
  pub cluster_name : String
  pub etcd_machine_backup_name : String

-- `ETCDSnapshotStatus`
pub record EtcdSnapshotStatus : Type 0 where
  pub phase : String

-- `ETCDSnapshotRestore`; `deleting` says that `DeletionTimestamp` is set.
pub record EtcdSnapshotRestore : Type 0 where
  pub name : String
  pub namespace : String
  pub resource_version : String
  pub deleting : Bool
  pub spec : EtcdSnapshotSpec
  pub status : EtcdSnapshotStatus

-- `EtcdMachineBackupSpec`
pub record EtcdMachineBackupSpec : Type 0 where
  pub cluster_name : String
  pub machine_name : String
  pub location : String
  pub manual : Bool

-- `EtcdMachineBackup`; `deleting` says that `DeletionTimestamp` is set.
pub record EtcdMachineBackup : Type 0 where
  pub name : String
  pub namespace : String
  pub deleting : Bool
  pub spec : EtcdMachineBackupSpec
