-- ===== src/Restore/Work.antt =====
-- The work of the three phases writes nothing but the plans of plan secrets.
use turtles_etcd_restore.Base.{
  String, ◌≡◌, refl, Bool, true, false, Option, none, some, List, [], ◌∷◌, ◌&&◌, ◌==◌, All,
}
use turtles_etcd_restore.Api.{EtcdMachineBackup}
use turtles_etcd_restore.Api.Phase
use turtles_etcd_restore.Objects.{Machine, Secret}
use turtles_etcd_restore.Go.Outcome.{◌>>=◌}
use turtles_etcd_restore.Go.Bytes.{Bytes}
use turtles_etcd_restore.Go.Rules.{
  Keeps, Keeps-pure, Keeps-raise, Keeps-lift, Keeps-on_err, Keeps-bind, Keeps-if, Leaves-bind,
  Ensures-lift,
}
use turtles_etcd_restore.Instructions.{instructions_as_json}
use turtles_etcd_restore.Client.{Client, Codec}
use turtles_etcd_restore.Restore.Scope.{Scope, get_internal_machine_ip}
use turtles_etcd_restore.Restore.Applied.{deref-eq_ok}
use turtles_etcd_restore.Restore.Machines.{
  finish_machine, apply_plan, join_instructions, stop_machine, stop_machines, start_machine,
  start_machines,
}
use turtles_etcd_restore.Restore.Phases.{
  when_ready, stop_rke2_on_all_machines, restore_instructions, restore_on, restore_with,
  restore_snapshot_on_init_machine, start_init_machine, start_others, start_from,
  start_rke2_on_all_machines,
}
use turtles_etcd_restore.Restore.Frame.{
  SecretFrame, RestorePlan, kill, recover, start, join, Known, get_plan-Frame, update-Frame,
  with_plan-Frame, filled-PlanSecretOf,
}
use turtles_etcd_restore.Restore.Refused.{Stored, Keeps-on_store}

module _ (c : Client) (k : Codec) {Ours : Machine → Type 0} {P : c.State → Type 0}
    (F : SecretFrame c Ours P) where
  finish-Frame : (plan : Bytes) (secret : Secret) → Keeps P (finish_machine c k plan secret)
  unfolding finish_machine
  finish-Frame plan secret =
      Keeps-if _ _ _ (Keeps-bind _ _ (Keeps-lift _) (λ _. Keeps-pure _)) (Keeps-pure _)

  apply_plan-Frame :
      (machine : Machine) (plan : Bytes)
      → Known Ours machine
      → RestorePlan plan
      → Keeps P (apply_plan c k machine plan)
  unfolding apply_plan
  apply_plan-Frame machine plan known one = with_plan-Frame c F machine _ _ (λ x of.
      Keeps-bind _ _
        (Keeps-on_err _ _
          (update-Frame c F machine _ plan known (filled-PlanSecretOf c machine x of) one))
        (λ _.
          Keeps-bind _ _ (Keeps-on_err _ _ (get_plan-Frame c F machine))
            (λ y. finish-Frame plan y)))

  stop_machines-Frame :
      (machines : List Machine) (ready : Bool)
      → All (Known Ours) machines
      → Keeps P (stop_machines c k machines ready)
  unfolding stop_machines stop_machine instructions_as_json ◌>>=◌
  stop_machines-Frame [] ready known = Keeps-pure ready
  stop_machines-Frame (machine ∷ rest) ready (here, known) =
      Keeps-bind _ _ (apply_plan-Frame machine _ here kill)
        (λ applied. stop_machines-Frame rest (ready && applied) known)

  start_machines-Frame :
      (init_name ip : String) (machines : List Machine) (ready : Bool)
      → All (Known Ours) machines
      → Keeps P (start_machines c k init_name ip machines ready)
  unfolding start_machines start_machine instructions_as_json join_instructions ◌>>=◌
  start_machines-Frame init_name ip [] ready known = Keeps-pure ready
  start_machines-Frame init_name ip (machine ∷ rest) ready (here, known) =
      Keeps-bind _ _
        (Keeps-if (machine.name == init_name) _ _ (Keeps-pure true)
          (apply_plan-Frame machine _ here (join ip)))
        (λ applied. start_machines-Frame init_name ip rest (ready && applied) known)

  when_ready-Frame :
      (phase : String) (ready : Bool) → Keeps (Stored P) (when_ready {S = c.State} phase ready)
  unfolding ◌>>=◌
  when_ready-Frame phase true = record { at = λ p h. h }
  when_ready-Frame phase false = Keeps-pure _

  pub stop-Frame :
      (scope : Scope)
      → All (Known Ours) scope.machines
      → Keeps (Stored P) (stop_rke2_on_all_machines c k scope)
  unfolding stop_rke2_on_all_machines
  stop-Frame scope known =
      Keeps-bind _ _ (Keeps-on_store _ (stop_machines-Frame scope.machines true known))
        (λ ready. when_ready-Frame Phase.shutdown ready)

  restore_on-Frame :
      (machine : Machine) (backup : EtcdMachineBackup)
      → Known Ours machine
      → Keeps P (restore_on c k machine backup)
  unfolding restore_on instructions_as_json restore_instructions ◌>>=◌
  restore_on-Frame machine backup known = with_plan-Frame c F machine _ _ (λ x of.
      Keeps-bind _ _
        (Keeps-on_err _ _ (
          update-Frame c F machine _ _ known (filled-PlanSecretOf c machine x of) (recover backup)))
        (λ y. finish-Frame _ y))

  -- The init machine, if it has a bootstrap reference, is one of the machines.
  abbrev pub InitKnown : Option Machine → Type 0
  InitKnown m = (machine : Machine) → m ≡ some machine → Known Ours machine

  restore_with-Frame :
      (backup : EtcdMachineBackup) (m : Option Machine)
      → InitKnown m
      → Keeps (Stored P) (restore_with c k backup m)
  unfolding restore_with
  restore_with-Frame backup none known = Keeps-raise _
  restore_with-Frame backup (some machine) known =
      Keeps-bind _ _ (Keeps-on_store _ (restore_on-Frame machine backup (known machine refl)))
        (λ ready. when_ready-Frame Phase.restore ready)

  pub restore-Frame :
      (scope : Scope)
      → InitKnown scope.init_machine
      → Keeps (Stored P) (restore_snapshot_on_init_machine c k scope)
  unfolding restore_snapshot_on_init_machine
  restore-Frame scope known =
      Keeps-if _ _ _ (Keeps-raise _)
        (restore_with-Frame scope.etcd_machine_backup scope.init_machine known)

  start_init-Frame :
      (machine : Machine) → Known Ours machine → Keeps P (start_init_machine c k machine)
  unfolding start_init_machine instructions_as_json ◌>>=◌
  start_init-Frame machine known = with_plan-Frame c F machine _ _ (λ x of.
      Keeps-bind _ _ (Keeps-on_err _ _ (update-Frame c F machine x _ known of start))
        (λ y. finish-Frame _ y))

  pub start-Frame :
      (scope : Scope)
      → InitKnown scope.init_machine
      → All (Known Ours) scope.machines
      → Keeps (Stored P) (start_rke2_on_all_machines c k scope)
  unfolding start_rke2_on_all_machines start_from start_others
  start-Frame scope init known =
      Leaves-bind {R = λ machine _. scope.init_machine ≡ some machine} _ _ (Keeps-lift _)
        (Ensures-lift _ (λ machine e s h. deref-eq_ok _ e))
        (λ machine. record {
          at = λ s (is, h).
              (Keeps-if (get_internal_machine_ip machine == "") _ _ (Keeps-raise _) (
                  Keeps-bind _ _ (Keeps-on_store _ (start_init-Frame machine (init machine is)))
                    (λ started.
                      Keeps-if started _ _
                        (Keeps-bind _ _
                          (Keeps-on_store _ (start_machines-Frame _ _ scope.machines true known))
                          (λ ready. when_ready-Frame Phase.finished ready))
                        (Keeps-pure _)))).at
                s h;
        })
