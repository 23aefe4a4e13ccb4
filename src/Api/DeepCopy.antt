-- ===== src/Api/DeepCopy.antt =====
-- api/v1alpha1/zz_generated.deepcopy.go. A `DeepCopyInto` makes from `*in` what it leaves in `*out`,
-- a `DeepCopy` takes and returns a pointer, and a `DeepCopyObject` returns an interface value.
pub mod Views
pub mod Deep
pub mod Apart
use turtles_etcd_restore.Base.{ℕ, Option, none, some, List}
use turtles_etcd_restore.Api.{EtcdSnapshotSpec, EtcdMachineBackupSpec}
use turtles_etcd_restore.Api.Memory.{Pointer}
use turtles_etcd_restore.Api.Memory.Copy.{DeepCopyInto, copy_slice, copy_pointer}
use turtles_etcd_restore.Api.Structs.{
  ApiMachinery, Cell, EtcdSnapshotRestoreStruct, EtcdSnapshotRestoreListStruct,
  EtcdSnapshotStatusStruct, EtcdMachineBackupStruct, EtcdMachineBackupListStruct,
  EtcdMachineBackupStatusStruct,
}
use turtles_etcd_restore.Api.Kinds.{
  conditions_kind, snapshot_restores_kind, snapshot_restore_lists_kind, snapshot_specs_kind,
  snapshot_statuses_kind, machine_backups_kind, machine_backup_lists_kind,
  machine_backup_specs_kind, machine_backup_statuses_kind,
}

-- The `DeepCopyInto` of other projects' types.
pub record ForeignCopies (a : ApiMachinery) : Type 0 where
  pub object_meta : DeepCopyInto (Cell a) a.ObjectMeta
  pub list_meta : DeepCopyInto (Cell a) a.ListMeta
  pub condition : DeepCopyInto (Cell a) a.Condition

-- `runtime.Object`, of the types here: a pointer that is not nil, with its type.
pub data Object : Type 0 where
  snapshot_restore : ℕ × ℕ → Object
  snapshot_restore_list : ℕ × ℕ → Object
  machine_backup : ℕ × ℕ → Object
  machine_backup_list : ℕ × ℕ → Object

-- `if c := in.DeepCopy(); c != nil { return c }` with `return nil` after it.
abbrev boxed : (ℕ × ℕ → Object) → Pointer → Option Object
boxed object none = none
boxed object (some p) = some (object p)

module _ (a : ApiMachinery) (c : ForeignCopies a) where
  -- `ETCDSnapshotStatus`
  unfoldable pub snapshot_status_deep_copy_into : DeepCopyInto (Cell a) EtcdSnapshotStatusStruct
  snapshot_status_deep_copy_into status m =
      let (conditions, m') = copy_slice (conditions_kind a) c.condition status.conditions m in
      (record status { conditions = conditions }, m')

  unfoldable pub snapshot_status_deep_copy : DeepCopyInto (Cell a) Pointer
  snapshot_status_deep_copy = copy_pointer (snapshot_statuses_kind a) snapshot_status_deep_copy_into

  -- `ETCDSnapshotSpec`
  unfoldable pub snapshot_spec_deep_copy_into : DeepCopyInto (Cell a) EtcdSnapshotSpec
  snapshot_spec_deep_copy_into spec m = (spec, m)

  unfoldable pub snapshot_spec_deep_copy : DeepCopyInto (Cell a) Pointer
  snapshot_spec_deep_copy = copy_pointer (snapshot_specs_kind a) snapshot_spec_deep_copy_into

  -- `ETCDSnapshotRestore`
  unfoldable pub snapshot_restore_deep_copy_into :
      DeepCopyInto (Cell a) (EtcdSnapshotRestoreStruct a)
  snapshot_restore_deep_copy_into restore m =
      let (object_meta, m₁) = c.object_meta restore.object_meta m in
      let (status, m₂) = snapshot_status_deep_copy_into restore.status m₁ in
      (record restore { object_meta = object_meta; status = status }, m₂)

  unfoldable pub snapshot_restore_deep_copy : DeepCopyInto (Cell a) Pointer
  snapshot_restore_deep_copy =
      copy_pointer (snapshot_restores_kind a) snapshot_restore_deep_copy_into

  unfoldable pub snapshot_restore_deep_copy_object :
      Pointer → List (Cell a) → Option Object × List (Cell a)
  snapshot_restore_deep_copy_object p m =
      let (q, m') = snapshot_restore_deep_copy p m in (boxed snapshot_restore q, m')

  -- `ETCDSnapshotRestoreList`
  unfoldable pub snapshot_restore_list_deep_copy_into :
      DeepCopyInto (Cell a) (EtcdSnapshotRestoreListStruct a)
  snapshot_restore_list_deep_copy_into list m =
      let (list_meta, m₁) = c.list_meta list.list_meta m in
      let (items, m₂) =
        copy_slice (snapshot_restores_kind a) snapshot_restore_deep_copy_into list.items m₁ in
      (record list { list_meta = list_meta; items = items }, m₂)

  unfoldable pub snapshot_restore_list_deep_copy : DeepCopyInto (Cell a) Pointer
  snapshot_restore_list_deep_copy =
      copy_pointer (snapshot_restore_lists_kind a) snapshot_restore_list_deep_copy_into

  unfoldable pub snapshot_restore_list_deep_copy_object :
      Pointer → List (Cell a) → Option Object × List (Cell a)
  snapshot_restore_list_deep_copy_object p m =
      let (q, m') = snapshot_restore_list_deep_copy p m in (boxed snapshot_restore_list q, m')

  -- `EtcdMachineBackupStatus`
  unfoldable pub machine_backup_status_deep_copy_into :
      DeepCopyInto (Cell a) EtcdMachineBackupStatusStruct
  machine_backup_status_deep_copy_into status m =
      let (conditions, m') = copy_slice (conditions_kind a) c.condition status.conditions m in
      (record status { conditions = conditions }, m')

  unfoldable pub machine_backup_status_deep_copy : DeepCopyInto (Cell a) Pointer
  machine_backup_status_deep_copy =
      copy_pointer (machine_backup_statuses_kind a) machine_backup_status_deep_copy_into

  -- `EtcdMachineBackupSpec`
  unfoldable pub machine_backup_spec_deep_copy_into : DeepCopyInto (Cell a) EtcdMachineBackupSpec
  machine_backup_spec_deep_copy_into spec m = (spec, m)

  unfoldable pub machine_backup_spec_deep_copy : DeepCopyInto (Cell a) Pointer
  machine_backup_spec_deep_copy =
      copy_pointer (machine_backup_specs_kind a) machine_backup_spec_deep_copy_into

  -- `EtcdMachineBackup`
  unfoldable pub machine_backup_deep_copy_into : DeepCopyInto (Cell a) (EtcdMachineBackupStruct a)
  machine_backup_deep_copy_into backup m =
      let (object_meta, m₁) = c.object_meta backup.object_meta m in
      let (status, m₂) = machine_backup_status_deep_copy_into backup.status m₁ in
      (record backup { object_meta = object_meta; status = status }, m₂)

  unfoldable pub machine_backup_deep_copy : DeepCopyInto (Cell a) Pointer
  machine_backup_deep_copy = copy_pointer (machine_backups_kind a) machine_backup_deep_copy_into

  unfoldable pub machine_backup_deep_copy_object :
      Pointer → List (Cell a) → Option Object × List (Cell a)
  machine_backup_deep_copy_object p m =
      let (q, m') = machine_backup_deep_copy p m in (boxed machine_backup q, m')

  -- `EtcdMachineBackupList`
  unfoldable pub machine_backup_list_deep_copy_into :
      DeepCopyInto (Cell a) (EtcdMachineBackupListStruct a)
  machine_backup_list_deep_copy_into list m =
      let (list_meta, m₁) = c.list_meta list.list_meta m in
      let (items, m₂) =
        copy_slice (machine_backups_kind a) machine_backup_deep_copy_into list.items m₁ in
      (record list { list_meta = list_meta; items = items }, m₂)

  unfoldable pub machine_backup_list_deep_copy : DeepCopyInto (Cell a) Pointer
  machine_backup_list_deep_copy =
      copy_pointer (machine_backup_lists_kind a) machine_backup_list_deep_copy_into

  unfoldable pub machine_backup_list_deep_copy_object :
      Pointer → List (Cell a) → Option Object × List (Cell a)
  machine_backup_list_deep_copy_object p m =
      let (q, m') = machine_backup_list_deep_copy p m in (boxed machine_backup_list q, m')
