-- ===== src/Api/DeepCopy/Deep.antt =====
-- The deep copies of all the types are deep, where those of the other projects' types are.
use turtles_etcd_restore.Api.Memory.Copy.{IsDeep}
use turtles_etcd_restore.Api.Memory.Slices.{slice-IsDeep}
use turtles_etcd_restore.Api.Memory.Parts.{both-IsDeep, struct-IsDeep}
use turtles_etcd_restore.Api.Structs.{ApiMachinery}
use turtles_etcd_restore.Api.Kinds.{conditions_kind, snapshot_restores_kind, machine_backups_kind}
use turtles_etcd_restore.Api.DeepCopy.{
  ForeignCopies, snapshot_status_deep_copy_into, snapshot_restore_deep_copy_into,
  snapshot_restore_list_deep_copy_into, machine_backup_status_deep_copy_into,
  machine_backup_deep_copy_into, machine_backup_list_deep_copy_into,
}
use turtles_etcd_restore.Api.DeepCopy.Views.{
  ForeignShapes, snapshot_status_parts, machine_backup_status_parts, snapshot_restore_parts,
  machine_backup_parts, snapshot_restore_list_parts, machine_backup_list_parts,
  snapshot_status_shape, machine_backup_status_shape, snapshot_restore_shape, machine_backup_shape,
  snapshot_restore_list_shape, machine_backup_list_shape,
}

-- The deep copies of other projects' types are deep.
pub record ForeignLaws (a : ApiMachinery) (c : ForeignCopies a) (s : ForeignShapes a) : Type 0 where
  pub object_meta : IsDeep s.object_meta c.object_meta
  pub list_meta : IsDeep s.list_meta c.list_meta
  pub condition : IsDeep s.condition c.condition

module _ (a : ApiMachinery) (c : ForeignCopies a) (s : ForeignShapes a)
    (laws : ForeignLaws a c s) where
  pub snapshot_status-IsDeep :
      IsDeep (snapshot_status_shape a s) (snapshot_status_deep_copy_into a c)
  unfolding snapshot_status_deep_copy_into
  snapshot_status-IsDeep =
      struct-IsDeep (snapshot_status_parts a) (slice-IsDeep (conditions_kind a) laws.condition)

  pub machine_backup_status-IsDeep :
      IsDeep (machine_backup_status_shape a s) (machine_backup_status_deep_copy_into a c)
  unfolding machine_backup_status_deep_copy_into
  machine_backup_status-IsDeep =
      struct-IsDeep (machine_backup_status_parts a)
        (slice-IsDeep (conditions_kind a) laws.condition)

  pub snapshot_restore-IsDeep :
      IsDeep (snapshot_restore_shape a s) (snapshot_restore_deep_copy_into a c)
  unfolding snapshot_restore_deep_copy_into
  snapshot_restore-IsDeep =
      struct-IsDeep (snapshot_restore_parts a) (both-IsDeep laws.object_meta snapshot_status-IsDeep)

  pub machine_backup-IsDeep : IsDeep (machine_backup_shape a s) (machine_backup_deep_copy_into a c)
  unfolding machine_backup_deep_copy_into
  machine_backup-IsDeep =
      struct-IsDeep (machine_backup_parts a)
        (both-IsDeep laws.object_meta machine_backup_status-IsDeep)

  pub snapshot_restore_list-IsDeep :
      IsDeep (snapshot_restore_list_shape a s) (snapshot_restore_list_deep_copy_into a c)
  unfolding snapshot_restore_list_deep_copy_into
  snapshot_restore_list-IsDeep =
      struct-IsDeep (snapshot_restore_list_parts a) (
        both-IsDeep laws.list_meta
          (slice-IsDeep (snapshot_restores_kind a) snapshot_restore-IsDeep))

  pub machine_backup_list-IsDeep :
      IsDeep (machine_backup_list_shape a s) (machine_backup_list_deep_copy_into a c)
  unfolding machine_backup_list_deep_copy_into
  machine_backup_list-IsDeep =
      struct-IsDeep (machine_backup_list_parts a)
        (both-IsDeep laws.list_meta (slice-IsDeep (machine_backups_kind a) machine_backup-IsDeep))
