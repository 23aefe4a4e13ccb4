-- ===== src/Api/Register.antt =====
-- The registration of api/v1alpha1 with a scheme: groupversion_info.go, and the `init` functions of
-- etcdmachinebackup_types.go and etcdsnapshotrestore_types.go.
use turtles_etcd_restore.Base.{String, List, [], ◌∷◌, In, refl, inl, inr}

-- `schema.GroupVersion`
pub record GroupVersion : Type 0 where
  pub group : String
  pub version : String

-- `GroupVersion`
abbrev pub group_version : GroupVersion
group_version = record { group = "turtles-capi.cattle.io"; version = "v1alpha1" }

-- The types of the objects that are registered.
pub data ObjectType : Type 0 where
  etcd_machine_backup etcd_machine_backup_list etcd_snapshot_restore etcd_snapshot_restore_list :
      ObjectType

-- What is used of controller-runtime's `scheme.Builder`: `&scheme.Builder{...}` and `Register`.
pub record SchemeBuilders : Type 1 where
  pub Builder : Type 0
  pub new_builder : GroupVersion → Builder
  pub register : List ObjectType → Builder → Builder

module _ (b : SchemeBuilders) where
  -- `init` of etcdmachinebackup_types.go
  unfoldable pub register_machine_backup : b.Builder → b.Builder
  register_machine_backup =
      b.register (ObjectType.etcd_machine_backup ∷ ObjectType.etcd_machine_backup_list ∷ [])

  -- `init` of etcdsnapshotrestore_types.go
  unfoldable pub register_snapshot_restore : b.Builder → b.Builder
  register_snapshot_restore =
      b.register (ObjectType.etcd_snapshot_restore ∷ ObjectType.etcd_snapshot_restore_list ∷ [])

  -- `SchemeBuilder` after the `init` functions, which Go runs in the order of the files' names.
  unfoldable pub scheme_builder : b.Builder
  unfolding register_machine_backup register_snapshot_restore
  scheme_builder = register_snapshot_restore (register_machine_backup (b.new_builder group_version))

  -- `Register` adds the types of its objects, and takes none away.
  pub record Registers (Has : b.Builder → ObjectType → Type 0) : Type 0 where
    pub adds :
        (ts : List ObjectType) (x : b.Builder) (t : ObjectType) → In t ts → Has (b.register ts x) t
    pub keeps :
        (ts : List ObjectType) (x : b.Builder) (t : ObjectType) → Has x t → Has (b.register ts x) t

  pub scheme_builder-Has :
      {Has : b.Builder → ObjectType → Type 0}
      → Registers Has
      → (t : ObjectType) → Has scheme_builder t
  unfolding scheme_builder
  scheme_builder-Has k ObjectType.etcd_machine_backup = k.keeps _ _ _ (k.adds _ _ _ (inl refl))
  scheme_builder-Has k ObjectType.etcd_machine_backup_list =
      k.keeps _ _ _ (k.adds _ _ _ (inr (inl refl)))
  scheme_builder-Has k ObjectType.etcd_snapshot_restore = k.adds _ _ _ (inl refl)
  scheme_builder-Has k ObjectType.etcd_snapshot_restore_list = k.adds _ _ _ (inr (inl refl))
