-- ===== src/Api/Kinds.antt =====
-- The arrays of each type of api/v1alpha1 in the cells of the memory, with the zero values.
use turtles_etcd_restore.Base.{List, none, some, Option, refl, false}
use turtles_etcd_restore.Api.{EtcdSnapshotSpec, EtcdMachineBackupSpec}
use turtles_etcd_restore.Api.Memory.{Kind}
use turtles_etcd_restore.Api.Structs.{
  TypeMeta, ApiMachinery, Cell, EtcdSnapshotRestoreStruct, EtcdSnapshotRestoreListStruct,
  EtcdSnapshotStatusStruct, EtcdMachineBackupStruct, EtcdMachineBackupListStruct,
  EtcdMachineBackupStatusStruct, conditions, snapshot_restores, snapshot_restore_lists,
  snapshot_specs, snapshot_statuses, machine_backups, machine_backup_lists, machine_backup_specs,
  machine_backup_statuses,
}

abbrev zero_type_meta : TypeMeta
zero_type_meta = record { kind = ""; api_version = "" }

abbrev zero_snapshot_spec : EtcdSnapshotSpec
zero_snapshot_spec = record { cluster_name = ""; etcd_machine_backup_name = "" }

abbrev zero_snapshot_status : EtcdSnapshotStatusStruct
zero_snapshot_status = record { phase = ""; conditions = none }

abbrev zero_machine_backup_spec : EtcdMachineBackupSpec
zero_machine_backup_spec = record {
  cluster_name = "";
  machine_name = "";
  location = "";
  manual = false;
}

abbrev zero_machine_backup_status : EtcdMachineBackupStatusStruct
zero_machine_backup_status = record { conditions = none }

module _ (a : ApiMachinery) where
  abbrev zero_snapshot_restore : EtcdSnapshotRestoreStruct a
  zero_snapshot_restore = record {
    type_meta = zero_type_meta;
    object_meta = a.zero_object_meta;
    spec = zero_snapshot_spec;
    status = zero_snapshot_status;
  }

  abbrev zero_snapshot_restore_list : EtcdSnapshotRestoreListStruct a
  zero_snapshot_restore_list = record {
    type_meta = zero_type_meta;
    list_meta = a.zero_list_meta;
    items = none;
  }

  abbrev zero_machine_backup : EtcdMachineBackupStruct a
  zero_machine_backup = record {
    type_meta = zero_type_meta;
    object_meta = a.zero_object_meta;
    spec = zero_machine_backup_spec;
    status = zero_machine_backup_status;
  }

  abbrev zero_machine_backup_list : EtcdMachineBackupListStruct a
  zero_machine_backup_list = record {
    type_meta = zero_type_meta;
    list_meta = a.zero_list_meta;
    items = none;
  }

  abbrev conditions_in : Cell a → Option (List a.Condition)
  conditions_in (conditions xs) = some xs
  conditions_in _ = none

  abbrev pub conditions_kind : Kind (Cell a) a.Condition
  conditions_kind = record {
    array = conditions;
    elements = conditions_in;
    elements-array = λ xs. refl;
    zero_value = a.zero_condition;
  }

  abbrev snapshot_restores_in : Cell a → Option (List (EtcdSnapshotRestoreStruct a))
  snapshot_restores_in (snapshot_restores xs) = some xs
  snapshot_restores_in _ = none

  abbrev pub snapshot_restores_kind : Kind (Cell a) (EtcdSnapshotRestoreStruct a)
  snapshot_restores_kind = record {
    array = snapshot_restores;
    elements = snapshot_restores_in;
    elements-array = λ xs. refl;
    zero_value = zero_snapshot_restore;
  }

  abbrev snapshot_restore_lists_in : Cell a → Option (List (EtcdSnapshotRestoreListStruct a))
  snapshot_restore_lists_in (snapshot_restore_lists xs) = some xs
  snapshot_restore_lists_in _ = none

  abbrev pub snapshot_restore_lists_kind : Kind (Cell a) (EtcdSnapshotRestoreListStruct a)
  snapshot_restore_lists_kind = record {
    array = snapshot_restore_lists;
    elements = snapshot_restore_lists_in;
    elements-array = λ xs. refl;
    zero_value = zero_snapshot_restore_list;
  }

  abbrev snapshot_specs_in : Cell a → Option (List EtcdSnapshotSpec)
  snapshot_specs_in (snapshot_specs xs) = some xs
  snapshot_specs_in _ = none

  abbrev pub snapshot_specs_kind : Kind (Cell a) EtcdSnapshotSpec
  snapshot_specs_kind = record {
    array = snapshot_specs;
    elements = snapshot_specs_in;
    elements-array = λ xs. refl;
    zero_value = zero_snapshot_spec;
  }

  abbrev snapshot_statuses_in : Cell a → Option (List EtcdSnapshotStatusStruct)
  snapshot_statuses_in (snapshot_statuses xs) = some xs
  snapshot_statuses_in _ = none

  abbrev pub snapshot_statuses_kind : Kind (Cell a) EtcdSnapshotStatusStruct
  snapshot_statuses_kind = record {
    array = snapshot_statuses;
    elements = snapshot_statuses_in;
    elements-array = λ xs. refl;
    zero_value = zero_snapshot_status;
  }

  abbrev machine_backups_in : Cell a → Option (List (EtcdMachineBackupStruct a))
  machine_backups_in (machine_backups xs) = some xs
  machine_backups_in _ = none

  abbrev pub machine_backups_kind : Kind (Cell a) (EtcdMachineBackupStruct a)
  machine_backups_kind = record {
    array = machine_backups;
    elements = machine_backups_in;
    elements-array = λ xs. refl;
    zero_value = zero_machine_backup;
  }

  abbrev machine_backup_lists_in : Cell a → Option (List (EtcdMachineBackupListStruct a))
  machine_backup_lists_in (machine_backup_lists xs) = some xs
  machine_backup_lists_in _ = none

  abbrev pub machine_backup_lists_kind : Kind (Cell a) (EtcdMachineBackupListStruct a)
  machine_backup_lists_kind = record {
    array = machine_backup_lists;
    elements = machine_backup_lists_in;
    elements-array = λ xs. refl;
    zero_value = zero_machine_backup_list;
  }

  abbrev machine_backup_specs_in : Cell a → Option (List EtcdMachineBackupSpec)
  machine_backup_specs_in (machine_backup_specs xs) = some xs
  machine_backup_specs_in _ = none

  abbrev pub machine_backup_specs_kind : Kind (Cell a) EtcdMachineBackupSpec
  machine_backup_specs_kind = record {
    array = machine_backup_specs;
    elements = machine_backup_specs_in;
    elements-array = λ xs. refl;
    zero_value = zero_machine_backup_spec;
  }

  abbrev machine_backup_statuses_in : Cell a → Option (List EtcdMachineBackupStatusStruct)
  machine_backup_statuses_in (machine_backup_statuses xs) = some xs
  machine_backup_statuses_in _ = none

  abbrev pub machine_backup_statuses_kind : Kind (Cell a) EtcdMachineBackupStatusStruct
  machine_backup_statuses_kind = record {
    array = machine_backup_statuses;
    elements = machine_backup_statuses_in;
    elements-array = λ xs. refl;
    zero_value = zero_machine_backup_status;
  }
