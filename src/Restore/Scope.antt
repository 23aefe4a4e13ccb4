-- ===== src/Restore/Scope.antt =====
-- `scope`, `newScope` and `getInternalMachineIP`.
use turtles_etcd_restore.Base.{String, Option, none, some, List, [], ◌∷◌, ◌==◌, ◌||◌, if◌then◌else◌}
use turtles_etcd_restore.Objects.{Machine, MachineAddress, Cluster}
use turtles_etcd_restore.Api.{EtcdSnapshotRestore, EtcdMachineBackup}
use turtles_etcd_restore.Go.Outcome.{M, pure, raise, call, on_err, ◌>>=◌, text}
use turtles_etcd_restore.Client.{Client}

-- `scope`; the init machine is a pointer in the source.
pub record Scope : Type 0 where
  pub cluster : Cluster
  pub machines : List Machine
  pub init_machine : Option Machine
  pub etcd_machine_backup : EtcdMachineBackup

-- `&clusterv1.Machine{}`
abbrev pub empty_machine : Machine
empty_machine = record {
  name = "";
  namespace = "";
  cluster_name = "";
  config_ref = none;
  phase = "";
  node_ref = none;
  addresses = [];
}

-- The loop of `newScope` over the machines, from `initMachine := &clusterv1.Machine{}`.
unfoldable pub find_init_machine : String → List Machine → Machine
find_init_machine machine_name [] = empty_machine
find_init_machine machine_name (machine ∷ rest) =
    if machine.name == machine_name then machine else find_init_machine machine_name rest

-- The type of an internal address, `clusterv1.MachineInternalIP`.
abbrev pub machine_internal_ip : String
machine_internal_ip = "InternalIP"

-- The loop of `getInternalMachineIP`.
unfoldable pub first_internal_ip : List MachineAddress → String
first_internal_ip [] = ""
first_internal_ip (address ∷ rest) =
    if address.kind == machine_internal_ip then address.address else first_internal_ip rest

-- `getInternalMachineIP`
unfoldable pub get_internal_machine_ip : Machine → String
unfolding first_internal_ip
get_internal_machine_ip machine = first_internal_ip machine.addresses

-- `newScope`
unfoldable pub new_scope : (c : Client) → EtcdSnapshotRestore → M c.State Scope
unfolding find_init_machine
new_scope c restore =
    if restore.spec.cluster_name == "" || restore.spec.etcd_machine_backup_name == ""
    then raise (text "clusterName and etcdMachineBackupName must be set")
    else do
      cluster ← on_err "failed to get cluster" (
          call (
            c.get_cluster
              (record { namespace = restore.namespace; name = restore.spec.cluster_name })))
      machines ← call (c.list_machines cluster.namespace cluster.name)
      backup ← on_err "failed to get etcd machine backup" (
          call (
            c.get_backup (record {
              namespace = restore.namespace;
              name = restore.spec.etcd_machine_backup_name;
            })))
      pure (record {
        cluster = cluster;
        machines = machines;
        init_machine = some (find_init_machine backup.spec.machine_name machines);
        etcd_machine_backup = backup;
      })
