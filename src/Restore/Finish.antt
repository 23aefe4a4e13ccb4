-- ===== src/Restore/Finish.antt =====
-- The last phase moves on when the agents have reported.
use turtles_etcd_restore.Base.{
  String, ◌≡◌, ◌≢◌, refl, true, false, some, List, [], ◌∷◌, All, ◌==◌, ◌⊎◌, inl, inr,
}
use turtles_etcd_restore.Api.Phase
use turtles_etcd_restore.Objects.{Machine}
use turtles_etcd_restore.Go.Outcome.{ok, ◌>>=◌}
use turtles_etcd_restore.Go.Bytes.{bytes_equal_iff, entry}
use turtles_etcd_restore.Instructions.{instructions_as_json}
use turtles_etcd_restore.Instructions.Distinct.{start_plan, join_plan}
use turtles_etcd_restore.Client.{Client, Codec}
use turtles_etcd_restore.Restore.Scope.{Scope, get_internal_machine_ip}
use turtles_etcd_restore.Restore.PlanSecret.{update_plan_secret_with_plan}
use turtles_etcd_restore.Restore.Machines.{join_instructions, start_machine, start_machines}
use turtles_etcd_restore.Restore.Phases.{
  Memory, no_requeue, with_phase, start_init_machine, start_others, start_from,
  start_rke2_on_all_machines,
}
use turtles_etcd_restore.Restore.Missing.{other_name}
use turtles_etcd_restore.Restore.Progress.{
  Settled, get_plan-Settled, finish-Settled, apply_plan-Settled,
}

module _ (c : Client) (k : Codec) where
  start_init-Settled :
      (machine : Machine) (s : c.State)
      → Settled c k s start_plan machine
      → start_init_machine c k machine s ≡ (ok true, s)
  unfolding start_init_machine instructions_as_json update_plan_secret_with_plan ◌>>=◌
  start_init-Settled machine s
        (config, meta, x, output, has, reads, holds, planned, applied, decodes) =
      rw
        (
          get_plan-Settled c k machine config meta x s has reads holds,
          (bytes_equal_iff (entry x.content "plan") start_plan).1 planned,
          finish-Settled c k x start_plan s output applied decodes,
        )
        refl

  -- A machine that the loop passes over, or whose plan secret reports the plan that joins it.
  abbrev pub HasJoined : c.State → String → String → Machine → Type 0
  HasJoined s init_name ip machine =
      ((machine.name == init_name) ≡ true)
      ⊎ (((machine.name == init_name) ≡ false) × Settled c k s (join_plan ip) machine)

  start_machine-Settled :
      (init_name ip : String) (machine : Machine) (s : c.State)
      → HasJoined s init_name ip machine
      → start_machine c k init_name ip machine s ≡ (ok true, s)
  unfolding start_machine instructions_as_json join_instructions ◌>>=◌
  start_machine-Settled init_name ip machine s (inl same) = rw same refl
  start_machine-Settled init_name ip machine s (inr (other, h)) =
      rw (other, apply_plan-Settled c k machine (join_plan ip) s h) refl

  start_machines-Settled :
      (init_name ip : String) (machines : List Machine) (s : c.State)
      → All (HasJoined s init_name ip) machines
      → start_machines c k init_name ip machines true s ≡ (ok true, s)
  unfolding start_machines ◌>>=◌
  start_machines-Settled init_name ip [] s h = refl
  start_machines-Settled init_name ip (machine ∷ rest) s (h, hs) =
      rw (start_machine-Settled init_name ip machine s h)
        (start_machines-Settled init_name ip rest s hs)

  -- In a scope whose init machine has an internal address, and in a state in which its plan secret
  -- reports the plan that starts RKE2 as applied and that of every machine of another name the plan
  -- that joins it to this address, all of them readable and with outputs that decode, the call of
  -- `startRKE2OnAllMachines` moves the restore to the finished phase, asks for no further run, and
  -- writes nothing.
  pub finished_reached :
      (scope : Scope) (machine : Machine) (p : Memory c.State)
      → scope.init_machine ≡ some machine
      → get_internal_machine_ip machine ≢ ""
      → Settled c k p.store start_plan machine
      → All (HasJoined p.store machine.name (get_internal_machine_ip machine)) scope.machines
      → start_rke2_on_all_machines c k scope p
        ≡ (ok no_requeue, record p { obj = with_phase Phase.finished p.obj })
  unfolding start_rke2_on_all_machines start_from start_others ◌>>=◌
  finished_reached scope machine p is addressed started joined =
      rw
        (
          is,
          other_name (get_internal_machine_ip machine) "" addressed,
          start_init-Settled machine p.store started,
          start_machines-Settled machine.name (get_internal_machine_ip machine) scope.machines
              p.store joined,
        )
        refl
