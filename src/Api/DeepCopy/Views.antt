-- ===== src/Api/DeepCopy/Views.antt =====
-- What the types of api/v1alpha1 show in a memory, and which cells they point to.
use turtles_etcd_restore.Base.{String, refl}
use turtles_etcd_restore.Api.{EtcdSnapshotSpec, EtcdMachineBackupSpec}
use turtles_etcd_restore.Api.Memory.{Slice}
use turtles_etcd_restore.Api.Memory.Copy.{Shape}
use turtles_etcd_restore.Api.Memory.Parts.{Struct, struct_shape, both_shape}
use turtles_etcd_restore.Api.Memory.Slices.{slice_shape}
use turtles_etcd_restore.Api.Structs.{
  ApiMachinery, TypeMeta, Cell, EtcdSnapshotRestoreStruct, EtcdSnapshotRestoreListStruct,
  EtcdSnapshotStatusStruct, EtcdMachineBackupStruct, EtcdMachineBackupListStruct,
  EtcdMachineBackupStatusStruct,
}
use turtles_etcd_restore.Api.Kinds.{conditions_kind, snapshot_restores_kind, machine_backups_kind}

-- What other projects' types show.
pub record ForeignShapes (a : ApiMachinery) : Type 1 where
  pub object_meta : Shape (Cell a) a.ObjectMeta
  pub list_meta : Shape (Cell a) a.ListMeta
  pub condition : Shape (Cell a) a.Condition

module _ (a : ApiMachinery) where
  abbrev pub snapshot_status_parts : Struct EtcdSnapshotStatusStruct Slice String
  snapshot_status_parts = record {
    part = λ x. x.conditions;
    put = λ x p. record x { conditions = p };
    rest = λ x. x.phase;
    part-put = λ x p. refl;
    rest-put = λ x p. refl;
  }

  abbrev pub machine_backup_status_parts : Struct EtcdMachineBackupStatusStruct Slice Unit
  machine_backup_status_parts = record {
    part = λ x. x.conditions;
    put = λ x p. record x { conditions = p };
    rest = λ x. tt;
    part-put = λ x p. refl;
    rest-put = λ x p. refl;
  }

  abbrev pub snapshot_restore_parts :
      Struct
        (EtcdSnapshotRestoreStruct a)
        (a.ObjectMeta × EtcdSnapshotStatusStruct)
        (TypeMeta × EtcdSnapshotSpec)
  snapshot_restore_parts = record {
    part = λ x. (x.object_meta, x.status);
    put = λ x p. record x { object_meta = p.0; status = p.1 };
    rest = λ x. (x.type_meta, x.spec);
    part-put = λ x p. refl;
    rest-put = λ x p. refl;
  }

  abbrev pub machine_backup_parts :
      Struct
        (EtcdMachineBackupStruct a)
        (a.ObjectMeta × EtcdMachineBackupStatusStruct)
        (TypeMeta × EtcdMachineBackupSpec)
  machine_backup_parts = record {
    part = λ x. (x.object_meta, x.status);
    put = λ x p. record x { object_meta = p.0; status = p.1 };
    rest = λ x. (x.type_meta, x.spec);
    part-put = λ x p. refl;
    rest-put = λ x p. refl;
  }

  abbrev pub snapshot_restore_list_parts :
      Struct (EtcdSnapshotRestoreListStruct a) (a.ListMeta × Slice) TypeMeta
  snapshot_restore_list_parts = record {
    part = λ x. (x.list_meta, x.items);
    put = λ x p. record x { list_meta = p.0; items = p.1 };
    rest = λ x. x.type_meta;
    part-put = λ x p. refl;
    rest-put = λ x p. refl;
  }

  abbrev pub machine_backup_list_parts :
      Struct (EtcdMachineBackupListStruct a) (a.ListMeta × Slice) TypeMeta
  machine_backup_list_parts = record {
    part = λ x. (x.list_meta, x.items);
    put = λ x p. record x { list_meta = p.0; items = p.1 };
    rest = λ x. x.type_meta;
    part-put = λ x p. refl;
    rest-put = λ x p. refl;
  }

module _ (a : ApiMachinery) (s : ForeignShapes a) where
  abbrev pub snapshot_status_shape : Shape (Cell a) EtcdSnapshotStatusStruct
  snapshot_status_shape =
      struct_shape (snapshot_status_parts a) (slice_shape (conditions_kind a) s.condition)

  abbrev pub machine_backup_status_shape : Shape (Cell a) EtcdMachineBackupStatusStruct
  machine_backup_status_shape =
      struct_shape (machine_backup_status_parts a) (slice_shape (conditions_kind a) s.condition)

  abbrev pub snapshot_restore_shape : Shape (Cell a) (EtcdSnapshotRestoreStruct a)
  snapshot_restore_shape =
      struct_shape (snapshot_restore_parts a) (both_shape s.object_meta snapshot_status_shape)

  abbrev pub machine_backup_shape : Shape (Cell a) (EtcdMachineBackupStruct a)
  machine_backup_shape =
      struct_shape (machine_backup_parts a) (both_shape s.object_meta machine_backup_status_shape)

  abbrev pub snapshot_restore_list_shape : Shape (Cell a) (EtcdSnapshotRestoreListStruct a)
  snapshot_restore_list_shape =
      struct_shape (snapshot_restore_list_parts a)
        (both_shape s.list_meta (slice_shape (snapshot_restores_kind a) snapshot_restore_shape))

  abbrev pub machine_backup_list_shape : Shape (Cell a) (EtcdMachineBackupListStruct a)
  machine_backup_list_shape =
      struct_shape (machine_backup_list_parts a)
        (both_shape s.list_meta (slice_shape (machine_backups_kind a) machine_backup_shape))
