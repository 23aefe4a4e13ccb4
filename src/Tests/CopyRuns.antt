-- ===== src/Tests/CopyRuns.antt =====
-- A restore with a condition and labels, which is an element of a slice, its copy, and writes to both.
use turtles_etcd_restore.Base.{
  ◌≡◌, refl, arith, String, Option, some, none, List, [], ◌∷◌, length, set, get_elem?-set_other,
}
use turtles_etcd_restore.Api.Memory.{Slice, Pointer, Kind, store}
use turtles_etcd_restore.Api.Memory.Copy.{copy_slice, copy_pointer, copy_array, copy_elements}
use turtles_etcd_restore.Api.Memory.Slices.{slice-IsDeep, slice_shape}
use turtles_etcd_restore.Api.Memory.Parts.{plain-IsDeep, plain_shape, copy_plain}
use turtles_etcd_restore.Api.Structs.{
  ApiMachinery, Cell, foreign, conditions, snapshot_restores, EtcdSnapshotRestoreStruct,
}
use turtles_etcd_restore.Api.DeepCopy.{
  ForeignCopies, snapshot_restore_deep_copy_into, snapshot_status_deep_copy_into,
}
use turtles_etcd_restore.Api.DeepCopy.Views.{ForeignShapes}
use turtles_etcd_restore.Api.DeepCopy.Deep.{ForeignLaws}
use turtles_etcd_restore.Api.DeepCopy.Apart.{ApiType, deep_copy, shape_of, deep_copy_apart}

-- The metadata is a slice of labels, and a condition is its type.
abbrev machinery : ApiMachinery
machinery = record {
  ObjectMeta = Slice;
  ListMeta = String;
  Condition = String;
  Foreign = List String;
  zero_object_meta = none;
  zero_list_meta = "";
  zero_condition = "";
}

abbrev labels_in : Cell machinery → Option (List String)
labels_in (foreign xs) = some xs
labels_in _ = none

abbrev labels_kind : Kind (Cell machinery) String
labels_kind = record {
  array = foreign;
  elements = labels_in;
  elements-array = λ xs. refl;
  zero_value = "";
}

abbrev copies : ForeignCopies machinery
copies = record {
  object_meta = copy_slice labels_kind copy_plain;
  list_meta = copy_plain;
  condition = copy_plain;
}

abbrev shapes : ForeignShapes machinery
shapes = record {
  object_meta = slice_shape labels_kind (plain_shape (Cell machinery) String);
  list_meta = plain_shape (Cell machinery) String;
  condition = plain_shape (Cell machinery) String;
}

laws : ForeignLaws machinery copies shapes
laws = record {
  object_meta = slice-IsDeep labels_kind plain-IsDeep;
  list_meta = plain-IsDeep;
  condition = plain-IsDeep;
}

abbrev restore : EtcdSnapshotRestoreStruct machinery
restore = record {
  type_meta = record { kind = "ETCDSnapshotRestore"; api_version = "v1alpha1" };
  object_meta = some 0;
  spec = record { cluster_name = "prod"; etcd_machine_backup_name = "snap" };
  status = record { phase = "Started"; conditions = some 1 };
}

abbrev other_restore : EtcdSnapshotRestoreStruct machinery
other_restore = record restore { object_meta = none }

abbrev memory_before : List (Cell machinery)
memory_before =
    foreign ("blue" ∷ "old" ∷ [])
    ∷ conditions ("Ready" ∷ [])
    ∷ snapshot_restores (other_restore ∷ restore ∷ [])
    ∷ []

abbrev restore_pointer : Pointer
restore_pointer = some (2, 1)

abbrev copied : Pointer × List (Cell machinery)
copied = deep_copy machinery copies ApiType.snapshot_restore restore_pointer memory_before

six_cells : length copied.1 ≡ 6
unfolding deep_copy copy_pointer copy_slice copy_array copy_elements store
    snapshot_restore_deep_copy_into snapshot_status_deep_copy_into
six_cells = refl

-- The type of the condition is written, among what was there before the call.
abbrev original_written : List (Cell machinery)
original_written = set copied.1 1 (conditions ("Failed" ∷ []))

-- The conditions of the copy are emptied.
abbrev copy_written : List (Cell machinery)
copy_written = set copied.1 5 (conditions [])

before_call :
    (shape_of machinery shapes ApiType.snapshot_restore).Within 0 3 memory_before restore_pointer
before_call = record {
  x = restore;
  above = omega arith;
  below = omega arith;
  loads = refl;
  element = (
    record {
      xs = "blue" ∷ "old" ∷ [];
      above = omega arith;
      below = omega arith;
      loads = refl;
      elements = (tt, (tt, tt));
    },
    record {
      xs = "Ready" ∷ [];
      above = omega arith;
      below = omega arith;
      loads = refl;
      elements = (tt, tt);
    },
  );
}

deep_copy_apart_example :
    ((shape_of machinery shapes ApiType.snapshot_restore).view original_written copied.0
      ≡ (shape_of machinery shapes ApiType.snapshot_restore).view memory_before restore_pointer)
    × ((shape_of machinery shapes ApiType.snapshot_restore).view copy_written restore_pointer
        ≡ (shape_of machinery shapes ApiType.snapshot_restore).view memory_before restore_pointer)
deep_copy_apart_example =
    deep_copy_apart machinery copies shapes laws ApiType.snapshot_restore restore_pointer
      memory_before original_written copy_written before_call
      (record {
        same = λ p h k. get_elem?-set_other copied.1 1 p _ (λ e. absurd (omega (arith, e)));
      })
      (record {
        same = λ p h k. get_elem?-set_other copied.1 5 p _ (λ e. absurd (omega (arith, e)));
      })
