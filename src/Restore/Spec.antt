-- ===== src/Restore/Spec.antt =====
-- A specification of what one run of the restore controller may do: a step relation between the
-- phase before the run and the object and the server after it.
use turtles_etcd_restore.Base.{String, ◌≡◌, ◌≢◌, ◌⊎◌, true, some, List, All, In}
use turtles_etcd_restore.Api.{EtcdSnapshotSpec, EtcdMachineBackup}
use turtles_etcd_restore.Api.Phase
use turtles_etcd_restore.Objects.{Machine, Cluster}
use turtles_etcd_restore.Go.Outcome.{done}
use turtles_etcd_restore.Instructions.Distinct.{kill_plan, restore_plan, start_plan}
use turtles_etcd_restore.Client.{Client, Codec}
use turtles_etcd_restore.Client.Laws.{Rely}
use turtles_etcd_restore.Restore.Scope.{get_internal_machine_ip}
use turtles_etcd_restore.Restore.Phases.{Memory}
use turtles_etcd_restore.Restore.Applied.{plan_key, Reports}
use turtles_etcd_restore.Restore.Joined.{Joined}
use turtles_etcd_restore.Restore.Reads.{HasRead, after_reads}

module _ (c : Client) where
  -- The machines are an answer of the server.
  abbrev pub Listed : List Machine → Type 0
  Listed machines =
      (namespace : String) × (name : String) × (s : c.State) × ((c.list_machines namespace name s).0
        ≡ done machines)

  -- What a phase works on, in a run that begins in the state `s`: the cluster that the restore
  -- names, the machines of this cluster, all of them running, and the backup that the restore names,
  -- as the server answers them one after the other; and then the server accepts to pause this
  -- cluster.
  pub record Ready (namespace : String) (spec : EtcdSnapshotSpec) (s : c.State) : Type 0 where
    pub cluster : Cluster
    pub machines : List Machine
    pub backup : EtcdMachineBackup
    pub read : HasRead c namespace spec s cluster machines backup
    pub running : All (λ m. m.phase ≡ "Running") machines
    pub paused : Cluster
    pub pause :
        (c.patch_cluster cluster
          (record cluster { paused = true })
          (after_reads c namespace spec cluster s)).0
        ≡ done paused

-- Machines of different names have different plan secrets.
abbrev pub Apart : List Machine → Type 0
Apart machines =
    (x y : Machine)
    → In x machines
    → In y machines
    → x.name ≢ y.name
    → (config config' : String) → x.config_ref ≡ some config
    → y.config_ref ≡ some config'
    → plan_key x config ≢ plan_key y config'

module _ (c : Client) (k : Codec) (L : Rely c k.sha256) where
  -- One run for a restore with this namespace and spec, from the state and the phase before it: it
  -- waits, or it begins, or it enters the next phase, and then the machines that it has read have
  -- reported what this phase stands for.
  pub data Step (namespace : String) (spec : EtcdSnapshotSpec) (s : c.State) (phase : String)
      (after : Memory c.State) : Type 0 where
    wait : after.obj.status.phase ≡ phase → Step namespace spec s phase after
    commence :
        phase ≡ "" → after.obj.status.phase ≡ Phase.started → Step namespace spec s phase after
    halt :
        (phase ≡ "") ⊎ (phase ≡ Phase.started)
        → after.obj.status.phase ≡ Phase.shutdown
        → (ready : Ready c namespace spec s)
        → All (λ machine. Reports c k.sha256 L machine kill_plan after.store) ready.machines
        → Step namespace spec s phase after
    recover :
        phase ≡ Phase.shutdown
        → after.obj.status.phase ≡ Phase.restore
        → (ready : Ready c namespace spec s) → ready.backup.spec.location ≢ ""
        → (machine : Machine) → In machine ready.machines
        → machine.name ≡ ready.backup.spec.machine_name
        → Reports c k.sha256 L machine (restore_plan ready.backup) after.store
        → Step namespace spec s phase after
    complete :
        phase ≡ Phase.restore
        → after.obj.status.phase ≡ Phase.finished
        → (ready : Ready c namespace spec s) → (machine : Machine) → In machine ready.machines
        → machine.name ≡ ready.backup.spec.machine_name
        → get_internal_machine_ip machine ≢ ""
        → Reports c k.sha256 L machine start_plan after.store
        → All
            (Joined c k L machine.name (get_internal_machine_ip machine) after.store)
            ready.machines
        → Step namespace spec s phase after
