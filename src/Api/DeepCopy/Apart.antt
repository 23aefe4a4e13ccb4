-- ===== src/Api/DeepCopy/Apart.antt =====
-- A copy that `DeepCopy` makes and its original are apart: what is written to the one is not seen in
-- the other.
use turtles_etcd_restore.Base.{◌≡◌, List, length}
use turtles_etcd_restore.Api.{EtcdSnapshotSpec, EtcdMachineBackupSpec}
use turtles_etcd_restore.Api.Memory.{Agree, Pointer}
use turtles_etcd_restore.Api.Memory.Copy.{IsDeep, DeepCopyInto, Shape}
use turtles_etcd_restore.Api.Memory.Pointers.{pointer-IsDeep, pointer_shape}
use turtles_etcd_restore.Api.Memory.Parts.{plain-IsDeep, plain_shape, copy_apart}
use turtles_etcd_restore.Api.Structs.{ApiMachinery, Cell}
use turtles_etcd_restore.Api.Kinds.{
  snapshot_restores_kind, snapshot_restore_lists_kind, snapshot_specs_kind, snapshot_statuses_kind,
  machine_backups_kind, machine_backup_lists_kind, machine_backup_specs_kind,
  machine_backup_statuses_kind,
}
use turtles_etcd_restore.Api.DeepCopy.{
  ForeignCopies, snapshot_restore_deep_copy, snapshot_restore_list_deep_copy,
  snapshot_spec_deep_copy, snapshot_spec_deep_copy_into, snapshot_status_deep_copy,
  machine_backup_deep_copy, machine_backup_list_deep_copy, machine_backup_spec_deep_copy,
  machine_backup_spec_deep_copy_into, machine_backup_status_deep_copy,
}
use turtles_etcd_restore.Api.DeepCopy.Views.{
  ForeignShapes, snapshot_restore_shape, snapshot_restore_list_shape, snapshot_status_shape,
  machine_backup_shape, machine_backup_list_shape, machine_backup_status_shape,
}
use turtles_etcd_restore.Api.DeepCopy.Deep.{
  ForeignLaws, snapshot_restore-IsDeep, snapshot_restore_list-IsDeep, snapshot_status-IsDeep,
  machine_backup-IsDeep, machine_backup_list-IsDeep, machine_backup_status-IsDeep,
}

-- The types of api/v1alpha1 that have a `DeepCopy`.
pub data ApiType : Type 0 where
  snapshot_restore snapshot_restore_list snapshot_spec snapshot_status machine_backup
        machine_backup_list machine_backup_spec machine_backup_status :
      ApiType

-- The method `DeepCopy` of a type.
unfoldable pub deep_copy :
    (a : ApiMachinery) → ForeignCopies a → ApiType → DeepCopyInto (Cell a) Pointer
unfolding snapshot_restore_deep_copy snapshot_restore_list_deep_copy snapshot_spec_deep_copy
    snapshot_status_deep_copy machine_backup_deep_copy machine_backup_list_deep_copy
    machine_backup_spec_deep_copy machine_backup_status_deep_copy
deep_copy a c snapshot_restore = snapshot_restore_deep_copy a c
deep_copy a c snapshot_restore_list = snapshot_restore_list_deep_copy a c
deep_copy a c snapshot_spec = snapshot_spec_deep_copy a c
deep_copy a c snapshot_status = snapshot_status_deep_copy a c
deep_copy a c machine_backup = machine_backup_deep_copy a c
deep_copy a c machine_backup_list = machine_backup_list_deep_copy a c
deep_copy a c machine_backup_spec = machine_backup_spec_deep_copy a c
deep_copy a c machine_backup_status = machine_backup_status_deep_copy a c

-- What a pointer to a variable of the type shows: nil, or what the variable shows. The variable may
-- be an element of a slice.
abbrev pub shape_of : (a : ApiMachinery) → ForeignShapes a → ApiType → Shape (Cell a) Pointer
shape_of a s snapshot_restore =
    pointer_shape (snapshot_restores_kind a) (snapshot_restore_shape a s)
shape_of a s snapshot_restore_list =
    pointer_shape (snapshot_restore_lists_kind a) (snapshot_restore_list_shape a s)
shape_of a s snapshot_spec =
    pointer_shape (snapshot_specs_kind a) (plain_shape (Cell a) EtcdSnapshotSpec)
shape_of a s snapshot_status = pointer_shape (snapshot_statuses_kind a) (snapshot_status_shape a s)
shape_of a s machine_backup = pointer_shape (machine_backups_kind a) (machine_backup_shape a s)
shape_of a s machine_backup_list =
    pointer_shape (machine_backup_lists_kind a) (machine_backup_list_shape a s)
shape_of a s machine_backup_spec =
    pointer_shape (machine_backup_specs_kind a) (plain_shape (Cell a) EtcdMachineBackupSpec)
shape_of a s machine_backup_status =
    pointer_shape (machine_backup_statuses_kind a) (machine_backup_status_shape a s)

module _ (a : ApiMachinery) (c : ForeignCopies a) (s : ForeignShapes a)
    (laws : ForeignLaws a c s) where
  deep_copy-IsDeep : (t : ApiType) → IsDeep (shape_of a s t) (deep_copy a c t)
  unfolding deep_copy snapshot_spec_deep_copy_into machine_backup_spec_deep_copy_into
  deep_copy-IsDeep snapshot_restore =
      pointer-IsDeep (snapshot_restores_kind a) (snapshot_restore-IsDeep a c s laws)
  deep_copy-IsDeep snapshot_restore_list =
      pointer-IsDeep (snapshot_restore_lists_kind a) (snapshot_restore_list-IsDeep a c s laws)
  deep_copy-IsDeep snapshot_spec = pointer-IsDeep (snapshot_specs_kind a) plain-IsDeep
  deep_copy-IsDeep snapshot_status =
      pointer-IsDeep (snapshot_statuses_kind a) (snapshot_status-IsDeep a c s laws)
  deep_copy-IsDeep machine_backup =
      pointer-IsDeep (machine_backups_kind a) (machine_backup-IsDeep a c s laws)
  deep_copy-IsDeep machine_backup_list =
      pointer-IsDeep (machine_backup_lists_kind a) (machine_backup_list-IsDeep a c s laws)
  deep_copy-IsDeep machine_backup_spec = pointer-IsDeep (machine_backup_specs_kind a) plain-IsDeep
  deep_copy-IsDeep machine_backup_status =
      pointer-IsDeep (machine_backup_statuses_kind a) (machine_backup_status-IsDeep a c s laws)

  -- Where the deep copies of other projects' types are deep, and all that the pointer leads to is
  -- in the memory: for each of the eight types, `DeepCopy` gives a pointer that shows what the
  -- original shows, also after writes to any of the cells that were there before the call; and the
  -- original shows what it did before the call, also after writes to any of the cells that the call
  -- has made.
  pub deep_copy_apart :
      (t : ApiType) (p : Pointer) (m l k : List (Cell a))
      → (shape_of a s t).Within 0 (length m) m p
      → Agree (length m) (length (deep_copy a c t p m).1) (deep_copy a c t p m).1 l
      → Agree 0 (length m) (deep_copy a c t p m).1 k
      → ((shape_of a s t).view l (deep_copy a c t p m).0 ≡ (shape_of a s t).view m p)
        × ((shape_of a s t).view k p ≡ (shape_of a s t).view m p)
  deep_copy_apart t p m l k w after before = copy_apart (deep_copy-IsDeep t) m l k p w after before
