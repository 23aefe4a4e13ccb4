-- ===== src/Restore/Phases.antt =====
-- `stopRKE2OnAllMachines`, `restoreSnaphotOnInitMachine` and `startRKE2OnAllMachines`: the work of
-- the three phases, each of which may move the restore to the next one.
use turtles_etcd_restore.Base.{
  ℕ, ◌*◌, String, Option, none, some, List, [], ◌∷◌, Bool, true, false, ◌==◌, if◌then◌else◌,
}
use turtles_etcd_restore.Api.{EtcdSnapshotRestore, EtcdMachineBackup}
use turtles_etcd_restore.Api.Phase
use turtles_etcd_restore.Objects.{Machine}
use turtles_etcd_restore.Go.Outcome.{
  M, ok, pure, raise, lift, on_err, wrapped, deref, text, ◌>>=◌, ◌>>◌,
}
use turtles_etcd_restore.Instructions.{
  OneTimeInstruction, instructions_as_json, remove_server_url_from_config,
  manifest_removal_instruction, etcd_restore_instruction, start_rke2_instruction,
}
use turtles_etcd_restore.Client.{Client, Codec}
use turtles_etcd_restore.Restore.Scope.{Scope, get_internal_machine_ip}
use turtles_etcd_restore.Restore.PlanSecret.{
  with_content, get_plan_secret_for_machine, update_plan_secret_with_plan,
}
use turtles_etcd_restore.Restore.Machines.{finish_machine, stop_machines, start_machines}

-- `ctrl.Result`; a duration is in nanoseconds, as a `time.Duration`.
pub record Result : Type 0 where
  pub requeue : Bool
  pub requeue_after : ℕ

-- `ctrl.Result{}`
abbrev pub no_requeue : Result
no_requeue = record { requeue = false; requeue_after = 0 }

-- `ctrl.Result{RequeueAfter: 30 * time.Second}`
abbrev pub requeue_in_30s : Result
requeue_in_30s = record { requeue = false; requeue_after = 30 * 1_000_000_000 }

-- The restore object, which the functions change through their pointer, beside the state behind
-- the client.
pub record Memory (S : Type 0) : Type 0 where
  pub obj : EtcdSnapshotRestore
  pub store : S

-- A call that does not touch the restore object.
abbrev pub on_store : {S A : Type 0} → M S A → M (Memory S) A
on_store m p = let (r, s) = m p.store in (r, record p { store = s })

-- The object with its `Status.Phase` set.
abbrev pub with_phase : String → EtcdSnapshotRestore → EtcdSnapshotRestore
with_phase phase restore = record restore { status = record { phase = phase } }

-- `etcdSnapshotRestore.Status.Phase = phase`
abbrev pub set_phase : {S : Type 0} → String → M (Memory S) Unit
set_phase phase p = (ok tt, record p { obj = with_phase phase p.obj })

-- What restoring the snapshot runs.
unfoldable pub restore_instructions : EtcdMachineBackup → List OneTimeInstruction
restore_instructions backup =
    remove_server_url_from_config
    ∷ manifest_removal_instruction
    ∷ etcd_restore_instruction backup
    ∷ []

-- The end of the two functions that wait for all the machines.
abbrev pub when_ready : {S : Type 0} → String → Bool → M (Memory S) Result
when_ready phase ready =
    if ready then (do set_phase phase; pure no_requeue) else pure requeue_in_30s

module _ (c : Client) (k : Codec) where
  -- `stopRKE2OnAllMachines`
  unfoldable pub stop_rke2_on_all_machines : Scope → M (Memory c.State) Result
  stop_rke2_on_all_machines scope = do
    ready ← on_store (stop_machines c k scope.machines true)
    when_ready Phase.shutdown ready

  -- `restoreSnaphotOnInitMachine` after its two checks: whether the plan was applied.
  unfoldable pub restore_on : Machine → EtcdMachineBackup → M c.State Bool
  unfolding instructions_as_json restore_instructions
  restore_on init_machine backup = do
    secret ←
        on_err "failed to get plan secret for machine" (get_plan_secret_for_machine c init_machine)
    plan ← lift (
        wrapped "failed to get etcd restore instructions"
          (instructions_as_json (restore_instructions backup)))
    patched ←
        on_err "failed to patch plan secret"
          (update_plan_secret_with_plan c (with_content secret) plan)
    finish_machine c k plan patched

  -- `restoreSnaphotOnInitMachine` from its second check on.
  unfoldable pub restore_with : EtcdMachineBackup → Option Machine → M (Memory c.State) Result
  restore_with backup none = raise (text "initMachine must be set")
  restore_with backup (some init_machine) = do
    applied ← on_store (restore_on init_machine backup)
    when_ready Phase.restore applied

  -- `restoreSnaphotOnInitMachine`
  unfoldable pub restore_snapshot_on_init_machine : Scope → M (Memory c.State) Result
  unfolding restore_with
  restore_snapshot_on_init_machine scope =
      if scope.etcd_machine_backup.spec.location == ""
      then raise (text "etcdMachineBackup location must be set")
      else restore_with scope.etcd_machine_backup scope.init_machine

  -- The first half of `startRKE2OnAllMachines`: whether the init machine has started. A secret
  -- with no data is not given an empty map here.
  unfoldable pub start_init_machine : Machine → M c.State Bool
  unfolding instructions_as_json
  start_init_machine init_machine = do
    secret ←
        on_err "failed to get plan secret for machine" (get_plan_secret_for_machine c init_machine)
    plan ← lift (
        wrapped "failed to get start RKE2 instruction"
          (instructions_as_json (start_rke2_instruction ∷ [])))
    patched ← on_err "failed to patch plan secret" (update_plan_secret_with_plan c secret plan)
    finish_machine c k plan patched

  -- The second half of `startRKE2OnAllMachines`, given whether the init machine has started.
  unfoldable pub start_others : Scope → Machine → Bool → M (Memory c.State) Result
  start_others scope init_machine started =
      if started
      then (do
        ready ← on_store (
            start_machines c k init_machine.name (get_internal_machine_ip init_machine)
              scope.machines true)
        when_ready Phase.finished ready)
      else pure requeue_in_30s

  -- `startRKE2OnAllMachines` once the pointer to the init machine is read.
  unfoldable pub start_from : Scope → Machine → M (Memory c.State) Result
  unfolding start_others
  start_from scope init_machine =
      if get_internal_machine_ip init_machine == ""
      then raise (text "failed to get internal machine IP, field is empty")
      else do
        started ← on_store (start_init_machine init_machine)
        start_others scope init_machine started

  -- `startRKE2OnAllMachines`
  unfoldable pub start_rke2_on_all_machines : Scope → M (Memory c.State) Result
  start_rke2_on_all_machines scope = do
    init_machine ← lift (deref scope.init_machine)
    start_from scope init_machine
