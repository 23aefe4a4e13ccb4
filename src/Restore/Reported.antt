-- ===== src/Restore/Reported.antt =====
-- What a run of `reconcileNormal` waits for: that it can read its scope, and that the agents have
-- reported the plans of the phase.
use turtles_etcd_restore.Base.{String, ◌≡◌, ◌≢◌, some, List, All, ◌⊎◌}
use turtles_etcd_restore.Api.{EtcdSnapshotRestore, EtcdMachineBackup}
use turtles_etcd_restore.Api.Phase
use turtles_etcd_restore.Objects.{Machine, Cluster}
use turtles_etcd_restore.Go.Outcome.{done}
use turtles_etcd_restore.Instructions.Distinct.{kill_plan, restore_plan, start_plan}
use turtles_etcd_restore.Client.{Client, Codec}
use turtles_etcd_restore.Restore.Scope.{Scope, find_init_machine, get_internal_machine_ip}
use turtles_etcd_restore.Restore.Reconcile.{machine_phase_running}
use turtles_etcd_restore.Restore.Progress.{Settled}
use turtles_etcd_restore.Restore.Finish.{HasJoined}

-- The machine that `newScope` takes for the init machine.
abbrev pub init_of : List Machine → EtcdMachineBackup → Machine
init_of machines backup = find_init_machine backup.spec.machine_name machines

-- The scope that `newScope` builds from what it reads.
abbrev pub scope_of : Cluster → List Machine → EtcdMachineBackup → Scope
scope_of cluster machines backup = record {
  cluster = cluster;
  machines = machines;
  init_machine = some (init_of machines backup);
  etcd_machine_backup = backup;
}

module _ (c : Client) where
  -- The restore names a cluster and a backup, the reads of the two and of the machines succeed in
  -- this state and change nothing, and all machines run.
  pub record IsReadable (restore : EtcdSnapshotRestore) (cluster : Cluster)
      (machines : List Machine) (backup : EtcdMachineBackup) (s : c.State) : Type 0 where
    pub names_cluster : restore.spec.cluster_name ≢ ""
    pub names_backup : restore.spec.etcd_machine_backup_name ≢ ""
    pub cluster_read :
        c.get_cluster (record { namespace = restore.namespace; name = restore.spec.cluster_name }) s
        ≡ (done cluster, s)
    pub machines_read : c.list_machines cluster.namespace cluster.name s ≡ (done machines, s)
    pub backup_read :
        c.get_backup
          (record { namespace = restore.namespace; name = restore.spec.etcd_machine_backup_name })
          s
        ≡ (done backup, s)
    pub running : All (λ m. m.phase ≡ machine_phase_running) machines

module _ (c : Client) (k : Codec) where
  -- The agents have reported, in this state, all that the step from one phase to another waits for.
  pub data Reported (s : c.State) (machines : List Machine) (backup : EtcdMachineBackup)
      (from to : String) : Type 0 where
    stopped :
        (from ≡ "") ⊎ (from ≡ Phase.started)
        → to ≡ Phase.shutdown
        → All (Settled c k s kill_plan) machines
        → Reported s machines backup from to
    restored :
        from ≡ Phase.shutdown
        → to ≡ Phase.restore
        → backup.spec.location ≢ ""
        → Settled c k s (restore_plan backup) (init_of machines backup)
        → Reported s machines backup from to
    started :
        from ≡ Phase.restore
        → to ≡ Phase.finished
        → get_internal_machine_ip (init_of machines backup) ≢ ""
        → Settled c k s start_plan (init_of machines backup)
        → All
            (HasJoined c k s
              (init_of machines backup).name
              (get_internal_machine_ip (init_of machines backup)))
            machines
        → Reported s machines backup from to
