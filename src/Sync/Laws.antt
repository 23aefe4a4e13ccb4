-- ===== src/Sync/Laws.antt =====
-- What the synchronisation relies on of the API server, and the backups that a snapshot asks for.
use turtles_etcd_restore.Base.{String, ◌≡◌, ◌≢◌, true, false, some, Option, List}
use turtles_etcd_restore.Api.{EtcdMachineBackup}
use turtles_etcd_restore.Objects.{Key, Machine, Cluster}
use turtles_etcd_restore.Unstructured.{Fields}
use turtles_etcd_restore.Go.Outcome.{ok, done, fail, already_exists}
use turtles_etcd_restore.Sync.Client.{SyncClient}
use turtles_etcd_restore.Sync.Extract.{SnapshotFields, extract_fields, find_machine}

abbrev pub backup_key : EtcdMachineBackup → Key
backup_key backup = record { namespace = backup.namespace; name = backup.name }

abbrev pub Held : Option EtcdMachineBackup → Type 0
Held o = (x : EtcdMachineBackup) × (o ≡ some x)

-- What the synchronisation relies on of the API server. `backup_at` is what it holds. A creation
-- that succeeds leaves the object, one that is told that the object exists finds it there, and
-- nobody deletes a backup or changes the machines while the loop runs.
pub record Rely (c : SyncClient) : Type 0 where
  pub backup_at : c.State → Key → Option EtcdMachineBackup
  pub machines : String → List Machine
  pub list_machines_done :
      (namespace : String) (s : c.State) (ms : List Machine)
      → (c.list_machines namespace s).0 ≡ done ms
      → ms ≡ machines namespace
  pub list_machines_keeps :
      (namespace : String) (s : c.State) (key : Key)
      → Held (backup_at s key)
      → Held (backup_at (c.list_machines namespace s).1 key)
  pub create_backup_done :
      (backup : EtcdMachineBackup) (s : c.State)
      → (c.create_backup backup s).0 ≡ done tt
      → backup_at (c.create_backup backup s).1 (backup_key backup) ≡ some backup
  pub create_backup_exists :
      (backup : EtcdMachineBackup) (s : c.State)
      → (c.create_backup backup s).0 ≡ fail already_exists
      → Held (backup_at (c.create_backup backup s).1 (backup_key backup))
  pub create_backup_keeps :
      (backup : EtcdMachineBackup) (s : c.State) (key : Key)
      → Held (backup_at s key)
      → Held (backup_at (c.create_backup backup s).1 key)

-- The backup that the snapshot file asks for: the file is well formed, the snapshot is ready, and a
-- machine is found for its node. It has the snapshot's name and location, in the namespace of the
-- cluster, and the names of the cluster and the machine.
abbrev pub Wanted : List Machine → Cluster → Fields → EtcdMachineBackup → Type 0
Wanted machines cluster file backup =
    (snapshot : SnapshotFields) × (name : String) × (extract_fields file ≡ ok snapshot)
    × (snapshot.ready_to_use ≡ true)
    × (find_machine cluster.name snapshot.node_name machines ≡ ok name)
    × (name ≢ "")
    × (backup ≡ record {
      name = snapshot.snapshot_name;
      namespace = cluster.namespace;
      deleting = false;
      spec = record {
        cluster_name = cluster.name;
        machine_name = name;
        location = snapshot.location;
        manual = false;
      };
    })
