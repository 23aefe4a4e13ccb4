-- ===== src/Tests/RestoreRuns.antt =====
-- A cluster of two machines that goes through a restore, and the theorems about the restore
-- controller at its states.
use turtles_etcd_restore.Base.{
  ◌<◌, String, ◌≡◌, ◌≢◌, refl, inr, ap, true, false, Option, some, List, [], ◌∷◌, arith, All, ◌==◌,
  eq_iff, if◌then◌else◌,
}
use turtles_etcd_restore.Api.{EtcdSnapshotRestore, EtcdMachineBackup}
use turtles_etcd_restore.Api.Phase
use turtles_etcd_restore.Objects.{Key, Machine, Cluster}
use turtles_etcd_restore.Go.Bytes.{Bytes, ByteMap, hex, bytes_equal, index, set_index}
use turtles_etcd_restore.Go.Text.{join, trim_prefix}
use turtles_etcd_restore.Go.Outcome.{◌>>=◌}
use turtles_etcd_restore.Instructions.{
  marshal, is_plan_applied, kill_all_instruction, remove_server_url_from_config,
  manifest_removal_instruction, etcd_restore_instruction, start_rke2_instruction,
  add_server_url_to_config, remove_etcd_data_instruction,
}
use turtles_etcd_restore.Instructions.Distinct.{
  kill_plan, restore_plan, start_plan, join_plan, plans_distinct,
}
use turtles_etcd_restore.Client.{Codec}
use turtles_etcd_restore.Restore.Scope.{Scope, get_internal_machine_ip}
use turtles_etcd_restore.Restore.PlanSecret.{
  plan_secret_name, get_plan_secret_for_machine, update_plan_secret_with_plan,
  decompress_plan_output,
}
use turtles_etcd_restore.Restore.Machines.{
  apply_plan, stop_machine, stop_machines, start_machine, start_machines, finish_machine,
}
use turtles_etcd_restore.Restore.Phases.{
  Memory, stop_rke2_on_all_machines, restore_on, restore_snapshot_on_init_machine,
  start_init_machine, start_from, start_rke2_on_all_machines,
}
use turtles_etcd_restore.Restore.Restored.{restore_reported}
use turtles_etcd_restore.Restore.Started.{InitApart, AllStarted, finished_reported}
use turtles_etcd_restore.Restore.Reconcile.{reconcile_normal}
use turtles_etcd_restore.Restore.Order.{Moved, reconcile_normal_moves}
use turtles_etcd_restore.Restore.Applied.{Reports}
use turtles_etcd_restore.Restore.Stopped.{shutdown_reported}
use turtles_etcd_restore.Restore.Missing.{restore_without_init_machine}
use turtles_etcd_restore.Restore.Scope.{find_init_machine}
use turtles_etcd_restore.Instructions.Checksum.{is_plan_applied_exclusive}
use turtles_etcd_restore.Go.Outcome.{panic}
use turtles_etcd_restore.Tests.World.{World, memory, memory-Rely}

-- The digest of these runs is the text itself, and every output decodes.
abbrev pub codec : Codec
codec = record {
  sha256 = λ b. b;
  new_gzip_reader = λ b. inr b;
  read_all = λ b. inr b;
  unmarshal_output = λ b. inr [];
}

abbrev pub node : String → String → Machine
node name ip = record {
  name = name;
  namespace = "ns";
  cluster_name = "prod";
  config_ref = some name;
  phase = "Running";
  node_ref = some name;
  addresses =
      record { kind = "ExternalIP"; address = "1.1.1.1" }
      ∷ record { kind = "InternalIP"; address = ip }
      ∷ [];
}

abbrev pub nodes : List Machine
nodes = node "a" "10.0.0.1" ∷ node "b" "10.0.0.2" ∷ []

abbrev pub backup : EtcdMachineBackup
backup = record {
  name = "snap";
  namespace = "ns";
  deleting = false;
  spec = record {
    cluster_name = "prod";
    machine_name = "a";
    location = "file:///var/snap";
    manual = false;
  };
}

abbrev request : String → EtcdSnapshotRestore
request phase = record {
  name = "r";
  namespace = "ns";
  resource_version = "1";
  deleting = false;
  spec = record { cluster_name = "prod"; etcd_machine_backup_name = "snap" };
  status = record { phase = phase };
}

abbrev pub prod : Cluster
prod = record {
  name = "prod";
  namespace = "ns";
  resource_version = "1";
  paused = false;
  control_plane_kind = some "RKE2ControlPlane";
  control_plane_ready = true;
}

-- The secret of a machine whose agent has applied the plan.
abbrev pub reporting : Bytes → Option (Option ByteMap)
reporting plan = some (some (("plan", plan) ∷ ("applied-checksum", hex plan) ∷ []))

abbrev world : String → (Key → Option (Option ByteMap)) → World
world phase secrets = record {
  saved = request phase;
  cluster = prod;
  backup = backup;
  machines = nodes;
  secrets = secrets;
}

abbrev pub at_phase : String → (Key → Option (Option ByteMap)) → Memory World
at_phase phase secrets = record { obj = request phase; store = world phase secrets }

abbrev pub scope : Scope
scope = record {
  cluster = prod;
  machines = nodes;
  init_machine = some (node "a" "10.0.0.1");
  etcd_machine_backup = backup;
}

-- All that a run of one of the three phases goes through.
runs : Memory World → Memory World
unfolding stop_rke2_on_all_machines stop_machines stop_machine apply_plan finish_machine
    get_plan_secret_for_machine update_plan_secret_with_plan decompress_plan_output plan_secret_name
    join marshal kill_all_instruction is_plan_applied bytes_equal index set_index hex ◌>>=◌
    restore_snapshot_on_init_machine restore_on remove_server_url_from_config
    manifest_removal_instruction etcd_restore_instruction trim_prefix start_rke2_instruction
    add_server_url_to_config remove_etcd_data_instruction start_rke2_on_all_machines start_from
    start_init_machine start_machines start_machine get_internal_machine_ip
runs p = p

abbrev pub halted : Memory World
halted = at_phase Phase.started (λ _. reporting kill_plan)

halted_moves :
    (stop_rke2_on_all_machines memory codec scope halted).1.obj.status.phase ≡ Phase.shutdown
unfolding runs
halted_moves = refl

shutdown_reported_example :
    All
      (λ machine.
        Reports memory codec.sha256
          (memory-Rely codec.sha256)
          machine
          kill_plan
          (stop_rke2_on_all_machines memory codec scope halted).1.store)
      nodes
shutdown_reported_example =
    shutdown_reported memory codec (memory-Rely codec.sha256) scope halted
      (ground (arith, eq_iff Phase.started Phase.shutdown)) halted_moves

abbrev pub recovered : Memory World
recovered = at_phase Phase.shutdown (λ _. reporting (restore_plan backup))

recovered_moves :
    (restore_snapshot_on_init_machine memory codec scope recovered).1.obj.status.phase
    ≡ Phase.restore
unfolding runs
recovered_moves = refl

restore_reported_example :
    (machine : Machine) × (scope.init_machine ≡ some machine)
    × (scope.etcd_machine_backup.spec.location ≢ "")
    × Reports memory codec.sha256
        (memory-Rely codec.sha256)
        machine
        (restore_plan backup)
        (restore_snapshot_on_init_machine memory codec scope recovered).1.store
restore_reported_example =
    restore_reported memory codec (memory-Rely codec.sha256) scope recovered
      (ground (arith, eq_iff Phase.shutdown Phase.restore)) recovered_moves

-- The init machine is `a`, whose plan secret is `a-rke2config-plan`.
abbrev start_secrets : Key → Option (Option ByteMap)
start_secrets key =
    if key.name == "a-rke2config-plan"
    then reporting start_plan
    else reporting (join_plan "10.0.0.1")

abbrev pub joined : Memory World
joined = at_phase Phase.restore start_secrets

joined_moves :
    (start_rke2_on_all_machines memory codec scope joined).1.obj.status.phase ≡ Phase.finished
unfolding runs
joined_moves = refl

plan_names_differ : plan_secret_name "b" ≢ plan_secret_name "a"
unfolding plan_secret_name join
plan_names_differ = ground (arith, eq_iff "b-rke2config-plan" "a-rke2config-plan")

init_apart : InitApart scope (node "a" "10.0.0.1")
init_apart config is =
    (λ e. cc, (λ _ config' is' p. plan_names_differ (cc (ap (λ (key : Key). key.name) p)), tt))

finished_reported_example :
    (get_internal_machine_ip (node "a" "10.0.0.1") ≢ "")
    × AllStarted memory codec
        (memory-Rely codec.sha256)
        scope
        (node "a" "10.0.0.1")
        (start_rke2_on_all_machines memory codec scope joined).1.store
finished_reported_example =
    finished_reported memory codec (memory-Rely codec.sha256) scope (node "a" "10.0.0.1") joined
      refl init_apart (ground (arith, eq_iff Phase.restore Phase.finished)) joined_moves

reconcile_normal_moves_example : Moved halted.obj (reconcile_normal memory codec halted).1.obj
reconcile_normal_moves_example = reconcile_normal_moves memory codec halted

plans_distinct_example :
    (kill_plan ≢ restore_plan backup)
    × (kill_plan ≢ start_plan)
    × (kill_plan ≢ join_plan "10.0.0.1")
    × (restore_plan backup ≢ start_plan)
    × (restore_plan backup ≢ join_plan "10.0.0.1")
    × (start_plan ≢ join_plan "10.0.0.1")
plans_distinct_example = plans_distinct backup "10.0.0.1"

-- A backup of a machine that is no longer there.
abbrev orphan : EtcdMachineBackup
orphan = record backup { spec = record backup.spec { machine_name = "c" } }

abbrev orphan_scope : Scope
orphan_scope = record scope {
  init_machine = some (find_init_machine "c" nodes);
  etcd_machine_backup = orphan;
}

restore_without_init_machine_example :
    restore_snapshot_on_init_machine memory codec orphan_scope recovered ≡ (panic, recovered)
restore_without_init_machine_example =
    restore_without_init_machine memory codec orphan_scope recovered refl
      (ground (arith, eq_iff "a" "c"), (ground (arith, eq_iff "b" "c"), tt))
      (ground (arith, eq_iff "file:///var/snap" ""))

-- A digest of one byte, which tells whether the plan is empty.
abbrev emptiness : Bytes → Bytes
emptiness [] = 0 ∷ []
emptiness (b ∷ bs) = 1 ∷ []

emptiness-IsByte : (plan : Bytes) → All (λ b. b < 256) (emptiness plan)
emptiness-IsByte [] = (omega arith, tt)
emptiness-IsByte (b ∷ bs) = (omega arith, tt)

emptiness_accepts : is_plan_applied emptiness (7 ∷ []) (hex (1 ∷ [])) ≡ true
unfolding runs
emptiness_accepts = refl

emptiness_differs : emptiness (7 ∷ []) ≢ emptiness []
emptiness_differs e = cc

is_plan_applied_exclusive_example : is_plan_applied emptiness [] (hex (1 ∷ [])) ≡ false
is_plan_applied_exclusive_example =
    is_plan_applied_exclusive emptiness (7 ∷ []) [] (hex (1 ∷ [])) emptiness-IsByte
      emptiness_differs emptiness_accepts
