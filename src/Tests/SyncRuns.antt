-- ===== src/Tests/SyncRuns.antt =====
-- A client in memory for the sync controller, and its theorems on one snapshot.
use turtles_etcd_restore.Base.{
  ◌↔◌, inr, List, String, ◌≡◌, refl, ap, Bool, inl, true, false, Option, none, some, [], ◌∷◌, ◌⊎◌,
  eq_iff, arith, if◌then◌else◌, ◌≢◌, In, sym, ◌∙◌,
}
use turtles_etcd_restore.Objects.{Machine, Key}
use turtles_etcd_restore.Api.{EtcdMachineBackup}
use turtles_etcd_restore.Unstructured.{Fields, end, field, Value, lookup}
use turtles_etcd_restore.Go.Outcome.{ok, Reply, done, fail, already_exists, ◌>>=◌}
use turtles_etcd_restore.Go.Rules.{Keeps}
use turtles_etcd_restore.Sync.Client.{SyncClient}
use turtles_etcd_restore.Sync.Extract.{
  SnapshotFields, extract_fields, find_machine, find_machine_for_backup,
}
use turtles_etcd_restore.Sync.Reconcile.{
  backup_for, create_backup_for, sync_snapshot, sync_files, sync_found, sync_unpaused, sync_cluster,
  reconcile,
}
use turtles_etcd_restore.Sync.Laws.{Rely, Held, Wanted, backup_key}
use turtles_etcd_restore.Restore.Phases.{no_requeue}
use turtles_etcd_restore.Sync.Fields.{Describes, extract_fields_iff}
use turtles_etcd_restore.Sync.Placed.{restored_where_taken}
use turtles_etcd_restore.Restore.Scope.{find_init_machine}
use turtles_etcd_restore.Sync.Whole.{reconcile-Held}
use turtles_etcd_restore.Sync.Find.{RunsOn, find_machine_found, find_machine_complete}
use turtles_etcd_restore.Sync.Created.{sync_files-Wanted}
use turtles_etcd_restore.Sync.Backups.{sync_files-Held}
use turtles_etcd_restore.Tests.World.{same_key, same_key_refl}
use turtles_etcd_restore.Tests.RestoreRuns.{node, nodes, prod}

abbrev Store : Type 0
Store = Key → Option EtcdMachineBackup

abbrev put : EtcdMachineBackup → Store → Store
put backup store key = if same_key (backup_key backup) key then some backup else store key

abbrev create : EtcdMachineBackup → Store → Option EtcdMachineBackup → Reply (Unit {0}) × Store
create backup store none = (done tt, put backup store)
create backup store (some _) = (fail already_exists, store)

abbrev snapshot_file : Fields
snapshot_file = field "metadata" (Value.object (field "name" (Value.text "snap-1") end)) (
    field "spec"
      (Value.object (
        field "location" (Value.text "file:///var/snap-1") (field "nodeName" (Value.text "b") end)))
      (field "status" (Value.object (field "readyToUse" (Value.boolean true) end)) end))

abbrev sync_memory : SyncClient
sync_memory = record {
  State = Store;
  get_cluster = λ key s. (done prod, s);
  list_machines = λ namespace s. (done nodes, s);
  create_backup = λ backup s. create backup s (s (backup_key backup));
  watch = λ key s. (done tt, s);
  get_client = λ key s. (done tt, s);
  list_snapshot_files = λ key s. (done (snapshot_file ∷ []), s);
}

create_puts :
    (backup : EtcdMachineBackup) (s : Store) (o : Option EtcdMachineBackup)
    → (create backup s o).0 ≡ done tt
    → (create backup s o).1 (backup_key backup) ≡ some backup
create_puts backup s none h = rw (same_key_refl (backup_key backup)) refl
create_puts backup s (some x) h = cc

create_exists :
    (backup : EtcdMachineBackup) (s : Store) (o : Option EtcdMachineBackup)
    → s (backup_key backup) ≡ o
    → (create backup s o).0 ≡ fail already_exists
    → Held ((create backup s o).1 (backup_key backup))
create_exists backup s none is h = cc
create_exists backup s (some x) is h = (x, is)

create-Keeps :
    (backup : EtcdMachineBackup) (s : Store) (o : Option EtcdMachineBackup) (key : Key)
    → Held (s key)
    → Held ((create backup s o).1 key)
create-Keeps backup s none key h = go (same_key (backup_key backup) key)
  where
    go : (b : Bool) → Held (if b then some backup else s key)
    go true = (backup, refl)
    go false = h
create-Keeps backup s (some x) key h = h

listed : (ms : List Machine) → done nodes ≡ done ms → ms ≡ nodes
listed ms h = cc

abbrev sync_memory-Rely : Rely sync_memory
sync_memory-Rely = record {
  backup_at = λ s key. s key;
  machines = λ namespace. nodes;
  list_machines_done = λ namespace s ms h. listed ms h;
  list_machines_keeps = λ namespace s key h. h;
  create_backup_done = λ backup s h. create_puts backup s (s (backup_key backup)) h;
  create_backup_exists = λ backup s h. create_exists backup s _ refl h;
  create_backup_keeps = λ backup s key h. create-Keeps backup s (s (backup_key backup)) key h;
}

abbrev no_backups : Store
no_backups key = none

abbrev snap_1 : SnapshotFields
snap_1 = record {
  location = "file:///var/snap-1";
  node_name = "b";
  snapshot_name = "snap-1";
  ready_to_use = true;
}

synced : Store
unfolding sync_files sync_snapshot find_machine_for_backup find_machine extract_fields lookup
    create_backup_for backup_for ◌>>=◌
synced = (sync_files sync_memory prod (snapshot_file ∷ []) no_backups).1

b_found : find_machine "prod" "b" nodes ≡ ok "b"
unfolding synced
b_found = refl

abbrev node_b : String
node_b = "b"

find_machine_found_example : (node_b ≡ "") ⊎ RunsOn "prod" "b" nodes node_b
find_machine_found_example = find_machine_found "prod" "b" nodes node_b b_found

snapshot_file-Wanted : Wanted nodes prod snapshot_file (backup_for prod snap_1 "b")
unfolding synced
snapshot_file-Wanted = (snap_1, "b", refl, refl, refl, (λ e. ground (arith, eq_iff "b" "")), refl)

sync_succeeds : (sync_files sync_memory prod (snapshot_file ∷ []) no_backups).0 ≡ ok tt
unfolding synced
sync_succeeds = refl

sync_files-Held_example : Held (
    (sync_files sync_memory prod (snapshot_file ∷ []) no_backups).1
      (backup_key (backup_for prod snap_1 "b")))
sync_files-Held_example =
    sync_files-Held sync_memory sync_memory-Rely prod (snapshot_file ∷ []) snapshot_file
      (backup_for prod snap_1 "b") (inl refl) snapshot_file-Wanted no_backups sync_succeeds

-- Every backup that is held belongs to the cluster.
abbrev OfProd : Store → Type 0
OfProd s = (key : Key) (x : EtcdMachineBackup) → s key ≡ some x → x.spec.cluster_name ≡ "prod"

put-OfProd :
    (backup : EtcdMachineBackup) (s : Store)
    → backup.spec.cluster_name ≡ "prod"
    → OfProd s
    → OfProd (put backup s)
put-OfProd backup s named h key x = go (same_key (backup_key backup) key)
  where
    go : (b : Bool) → (if b then some backup else s key) ≡ some x → x.spec.cluster_name ≡ "prod"
    go true e = cc
    go false e = h key x e

create-OfProd :
    (backup : EtcdMachineBackup) (s : Store) (o : Option EtcdMachineBackup)
    → backup.spec.cluster_name ≡ "prod"
    → OfProd s
    → OfProd (create backup s o).1
create-OfProd backup s none named h = put-OfProd backup s named h
create-OfProd backup s (some x) named h = h

Wanted-named :
    (file : Fields) (backup : EtcdMachineBackup)
    → Wanted nodes prod file backup
    → backup.spec.cluster_name ≡ "prod"
unfolding backup_for
Wanted-named file backup (snapshot, name, e, ready, found, some_name, is) =
    ap (λ b. b.spec.cluster_name) is

sync_files-Wanted_example : Keeps OfProd (sync_files sync_memory prod (snapshot_file ∷ []))
sync_files-Wanted_example =
    sync_files-Wanted sync_memory sync_memory-Rely prod {P = OfProd} (λ s h. h) (snapshot_file ∷ [])
      (λ file i backup wanted s h.
        create-OfProd backup s (s (backup_key backup)) (Wanted-named file backup wanted) h)

find_machine_complete_example :
    (name : String) × (find_machine "prod" "b" nodes ≡ ok name) × RunsOn "prod" "b" nodes name
find_machine_complete_example =
    find_machine_complete "prod" "b" nodes (node "b" "10.0.0.2") ((λ e. cc), ((λ e. cc), tt))
      (inr (inl refl)) refl refl

extract_fields_iff_example :
    (extract_fields snapshot_file ≡ ok snap_1) ↔ Describes snapshot_file snap_1
extract_fields_iff_example = extract_fields_iff snapshot_file snap_1

prod_key : Key
prod_key = record { namespace = "ns"; name = "prod" }

listed_files : (x : List Fields) → done (snapshot_file ∷ []) ≡ done x → x ≡ snapshot_file ∷ []
listed_files x e = cc

whole_succeeds : (reconcile sync_memory prod_key no_backups).0 ≡ ok no_requeue
unfolding synced reconcile sync_found sync_unpaused sync_cluster
whole_succeeds = refl

reconcile-Held_example :
    Held ((reconcile sync_memory prod_key no_backups).1 (backup_key (backup_for prod snap_1 "b")))
reconcile-Held_example =
    reconcile-Held sync_memory sync_memory-Rely prod (snapshot_file ∷ [])
      (λ s x e. listed_files x e) prod_key snapshot_file (backup_for prod snap_1 "b") no_backups
      no_requeue refl refl refl refl (inl refl) snapshot_file-Wanted whole_succeeds

a_is_not_b : ◌≢◌ {A = String} "a" "b"
a_is_not_b e = ground (arith, eq_iff "a" "b")

name_of : {x y : Machine} → x ≡ y → x.name ≡ y.name
name_of e = ap (λ (m : Machine). m.name) e

nodes_unique : (x y : Machine) → In x nodes → In y nodes → x.name ≡ y.name → x ≡ y
nodes_unique x y (inl p) (inl q) e = p ∙ sym q
nodes_unique x y (inl p) (inr (inl q)) e = absurd (a_is_not_b (sym (name_of p) ∙ e ∙ name_of q))
nodes_unique x y (inr (inl p)) (inl q) e = absurd (a_is_not_b (sym (name_of q) ∙ sym e ∙ name_of p))
nodes_unique x y (inr (inl p)) (inr (inl q)) e = p ∙ sym q
nodes_unique x y (inr (inr p)) j e = absurd p
nodes_unique x y i (inr (inr q)) e = absurd q

restored_where_taken_example :
    In (find_init_machine "b" nodes) nodes
    × ((find_init_machine "b" nodes).cluster_name ≡ "prod")
    × ((find_init_machine "b" nodes).node_ref ≡ some "b")
unfolding backup_for
restored_where_taken_example =
    restored_where_taken prod snap_1 "b" nodes nodes b_found (λ e. ground (arith, eq_iff "b" ""))
      (λ m i c. i) nodes_unique
