-- ===== src/Restore/Progress.antt =====
-- When the agents have reported, the phases move on.
use turtles_etcd_restore.Base.{String, ◌≡◌, ◌≢◌, refl, sym, ◌∙◌, true, some, List, [], ◌∷◌, All}
use turtles_etcd_restore.Api.Phase
use turtles_etcd_restore.Objects.{Machine, ConfigMeta, Secret}
use turtles_etcd_restore.Go.Outcome.{ok, done, ◌>>=◌}
use turtles_etcd_restore.Go.Bytes.{Bytes, ByteMap, bytes_equal_iff, entry, or_empty}
use turtles_etcd_restore.Instructions.{instructions_as_json, is_plan_applied}
use turtles_etcd_restore.Instructions.Distinct.{kill_plan, restore_plan}
use turtles_etcd_restore.Client.{Client, Codec}
use turtles_etcd_restore.Restore.Scope.{Scope}
use turtles_etcd_restore.Restore.PlanSecret.{
  plan_secret_name, with_content, get_plan_secret_for_machine, update_plan_secret_with_plan,
  decompress_plan_output,
}
use turtles_etcd_restore.Restore.Machines.{finish_machine, apply_plan, stop_machine, stop_machines}
use turtles_etcd_restore.Restore.Phases.{
  Memory, no_requeue, with_phase, stop_rke2_on_all_machines, restore_on, restore_instructions,
  restore_with, restore_snapshot_on_init_machine,
}
use turtles_etcd_restore.Restore.Applied.{entry-or_empty}
use turtles_etcd_restore.Restore.Missing.{other_name}

module _ (c : Client) (k : Codec) where
  -- In this state the reads for the machine succeed and change nothing, and its plan secret holds
  -- the plan, reports it as applied, and has an output that decodes.
  abbrev pub Settled : c.State → Bytes → Machine → Type 0
  Settled s plan machine =
      (config : String) × (meta : ConfigMeta) × (x : Secret) × (output : ByteMap)
      × (machine.config_ref ≡ some config)
      × (c.get_config (record { namespace = machine.namespace; name = config }) s ≡ (done meta, s))
      × (c.get_secret (record { namespace = machine.namespace; name = plan_secret_name meta.name })
            s
          ≡ (done x, s))
      × (entry x.content "plan" ≡ plan)
      × (is_plan_applied k.sha256 plan (entry x.content "applied-checksum") ≡ true)
      × (decompress_plan_output k x ≡ ok output)

  pub get_plan-Settled :
      (machine : Machine) (config : String) (meta : ConfigMeta) (x : Secret) (s : c.State)
      → machine.config_ref ≡ some config
      → c.get_config (record { namespace = machine.namespace; name = config }) s ≡ (done meta, s)
      → c.get_secret (record { namespace = machine.namespace; name = plan_secret_name meta.name }) s
        ≡ (done x, s)
      → get_plan_secret_for_machine c machine s ≡ (ok x, s)
  unfolding get_plan_secret_for_machine ◌>>=◌
  get_plan-Settled machine config meta x s has reads holds = rw (has, reads, holds) refl

  update-Settled :
      (x : Secret) (plan : Bytes) (s : c.State)
      → entry x.content "plan" ≡ plan
      → update_plan_secret_with_plan c (with_content x) plan s ≡ (ok (with_content x), s)
  unfolding update_plan_secret_with_plan ◌>>=◌
  update-Settled x plan s planned =
      let same =
        (bytes_equal_iff (entry (or_empty x.content) "plan") plan).1
          (sym (entry-or_empty x.content "plan") ∙ planned) in
      rw same refl

  pub finish-Settled :
      (x : Secret) (plan : Bytes) (s : c.State) (output : ByteMap)
      → is_plan_applied k.sha256 plan (entry x.content "applied-checksum") ≡ true
      → decompress_plan_output k x ≡ ok output
      → finish_machine c k plan x s ≡ (ok true, s)
  unfolding finish_machine ◌>>=◌
  finish-Settled x plan s output applied decodes = rw (applied, decodes) refl

  pub apply_plan-Settled :
      (machine : Machine) (plan : Bytes) (s : c.State)
      → Settled s plan machine
      → apply_plan c k machine plan s ≡ (ok true, s)
  unfolding apply_plan ◌>>=◌
  apply_plan-Settled machine plan s
        (config, meta, x, output, has, reads, holds, planned, applied, decodes) =
      let read = get_plan-Settled machine config meta x s has reads holds in
      rw
        (
          read,
          update-Settled x plan s planned,
          read,
          finish-Settled x plan s output applied decodes,
        )
        refl

  stop_machines-Settled :
      (machines : List Machine) (s : c.State)
      → All (Settled s kill_plan) machines
      → stop_machines c k machines true s ≡ (ok true, s)
  unfolding stop_machines stop_machine instructions_as_json ◌>>=◌
  stop_machines-Settled [] s h = refl
  stop_machines-Settled (machine ∷ rest) s (h, hs) =
      rw (apply_plan-Settled machine kill_plan s h) (stop_machines-Settled rest s hs)

  -- In a state in which the plan secret of every machine of the scope can be read, holds the plan
  -- that stops RKE2, reports it as applied and has an output that decodes, the call of
  -- `stopRKE2OnAllMachines` moves the restore to the shutdown phase, asks for no further run, and
  -- writes nothing.
  pub shutdown_reached :
      (scope : Scope) (p : Memory c.State)
      → All (Settled p.store kill_plan) scope.machines
      → stop_rke2_on_all_machines c k scope p
        ≡ (ok no_requeue, record p { obj = with_phase Phase.shutdown p.obj })
  unfolding stop_rke2_on_all_machines ◌>>=◌
  shutdown_reached scope p h = rw (stop_machines-Settled scope.machines p.store h) refl

  filled-Settled :
      (x : Secret) (plan : Bytes) (s : c.State) (output : ByteMap)
      → is_plan_applied k.sha256 plan (entry x.content "applied-checksum") ≡ true
      → decompress_plan_output k x ≡ ok output
      → finish_machine c k plan (with_content x) s ≡ (ok true, s)
  unfolding decompress_plan_output
  filled-Settled x plan s output applied decodes =
      finish-Settled (with_content x) plan s output
        (rw (← entry-or_empty x.content "applied-checksum") applied)
        (rw (decompress_plan_output, ← entry-or_empty x.content "applied-output") decodes)

  restore_on-Settled :
      (machine : Machine) (s : c.State) (scope : Scope)
      → Settled s (restore_plan scope.etcd_machine_backup) machine
      → restore_on c k machine scope.etcd_machine_backup s ≡ (ok true, s)
  unfolding restore_on instructions_as_json restore_instructions ◌>>=◌
  restore_on-Settled machine s scope
        (config, meta, x, output, has, reads, holds, planned, applied, decodes) =
      let plan : Bytes = restore_plan scope.etcd_machine_backup in
      rw
        (
          get_plan-Settled machine config meta x s has reads holds,
          update-Settled x plan s planned,
          filled-Settled x plan s output applied decodes,
        )
        refl

  -- In a scope with an init machine and a backup that has a location, and in a state in which the
  -- init machine's plan secret can be read, holds the plan that restores the backup, reports it as
  -- applied and has an output that decodes, the call of `restoreSnaphotOnInitMachine` moves the
  -- restore to the restore phase, asks for no further run, and writes nothing.
  pub restore_reached :
      (scope : Scope) (machine : Machine) (p : Memory c.State)
      → scope.init_machine ≡ some machine
      → scope.etcd_machine_backup.spec.location ≢ ""
      → Settled p.store (restore_plan scope.etcd_machine_backup) machine
      → restore_snapshot_on_init_machine c k scope p
        ≡ (ok no_requeue, record p { obj = with_phase Phase.restore p.obj })
  unfolding restore_snapshot_on_init_machine restore_with ◌>>=◌
  restore_reached scope machine p is located h =
      rw
        (
          is,
          other_name scope.etcd_machine_backup.spec.location "" located,
          restore_on-Settled machine p.store scope h,
        )
        refl
