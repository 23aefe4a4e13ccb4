-- ===== src/Api/Structs.antt =====
-- The structs of api/v1alpha1 as they lie in memory: slices are addresses, and what other projects
-- declare is a parameter. The parts without pointers are those of `Api`.
use turtles_etcd_restore.Base.{String, List}
use turtles_etcd_restore.Api.{EtcdSnapshotSpec, EtcdMachineBackupSpec}
use turtles_etcd_restore.Api.Memory.{Slice}

-- `metav1.TypeMeta`
pub record TypeMeta : Type 0 where
  pub kind : String
  pub api_version : String

-- `metav1.ObjectMeta`, `metav1.ListMeta` and `clusterv1.Condition`, with their zero values, and what
-- the cells hold that their own pointers lead to.
pub record ApiMachinery : Type 1 where
  pub ObjectMeta : Type 0
  pub ListMeta : Type 0
  pub Condition : Type 0
  pub Foreign : Type 0
  pub zero_object_meta : ObjectMeta
  pub zero_list_meta : ListMeta
  pub zero_condition : Condition

-- `ETCDSnapshotStatus`
pub record EtcdSnapshotStatusStruct : Type 0 where
  pub phase : String
  pub conditions : Slice

-- `EtcdMachineBackupStatus`
pub record EtcdMachineBackupStatusStruct : Type 0 where
  pub conditions : Slice

-- `ETCDSnapshotRestore`
pub record EtcdSnapshotRestoreStruct (a : ApiMachinery) : Type 0 where
  pub type_meta : TypeMeta
  pub object_meta : a.ObjectMeta
  pub spec : EtcdSnapshotSpec
  pub status : EtcdSnapshotStatusStruct

-- `ETCDSnapshotRestoreList`
pub record EtcdSnapshotRestoreListStruct (a : ApiMachinery) : Type 0 where
  pub type_meta : TypeMeta
  pub list_meta : a.ListMeta
  pub items : Slice

-- `EtcdMachineBackup`
pub record EtcdMachineBackupStruct (a : ApiMachinery) : Type 0 where
  pub type_meta : TypeMeta
  pub object_meta : a.ObjectMeta
  pub spec : EtcdMachineBackupSpec
  pub status : EtcdMachineBackupStatusStruct

-- `EtcdMachineBackupList`
pub record EtcdMachineBackupListStruct (a : ApiMachinery) : Type 0 where
  pub type_meta : TypeMeta
  pub list_meta : a.ListMeta
  pub items : Slice

-- An array in memory, by the type of its elements.
pub data Cell (a : ApiMachinery) : Type 0 where
  foreign : a.Foreign → Cell a
  conditions : List a.Condition → Cell a
  snapshot_restores : List (EtcdSnapshotRestoreStruct a) → Cell a
  snapshot_restore_lists : List (EtcdSnapshotRestoreListStruct a) → Cell a
  snapshot_specs : List EtcdSnapshotSpec → Cell a
  snapshot_statuses : List EtcdSnapshotStatusStruct → Cell a
  machine_backups : List (EtcdMachineBackupStruct a) → Cell a
  machine_backup_lists : List (EtcdMachineBackupListStruct a) → Cell a
  machine_backup_specs : List EtcdMachineBackupSpec → Cell a
  machine_backup_statuses : List EtcdMachineBackupStatusStruct → Cell a
