-- ===== src/Restore/Missing.antt =====
-- What becomes of a restore whose backup names no machine of the cluster.
use turtles_etcd_restore.Base.{
  String, ◌≡◌, ◌≢◌, refl, List, [], ◌∷◌, All, some, false, ◌==◌, eq_iff, arith,
}
use turtles_etcd_restore.Objects.{Machine}
use turtles_etcd_restore.Go.Outcome.{panic, ◌>>=◌}
use turtles_etcd_restore.Client.{Client, Codec}
use turtles_etcd_restore.Restore.Scope.{Scope, empty_machine, find_init_machine}
use turtles_etcd_restore.Restore.PlanSecret.{get_plan_secret_for_machine}
use turtles_etcd_restore.Restore.Phases.{Memory, restore_on, restore_snapshot_on_init_machine}

pub other_name : (a b : String) → a ≢ b → (a == b) ≡ false
other_name a b h = ground (arith, eq_iff a b)

find_init_machine-empty :
    (name : String) (machines : List Machine)
    → All (λ machine. machine.name ≢ name) machines
    → find_init_machine name machines ≡ empty_machine
unfolding find_init_machine
find_init_machine-empty name [] h = refl
find_init_machine-empty name (machine ∷ rest) (h, hs) =
    rw (other_name machine.name name h) (find_init_machine-empty name rest hs)

module _ (c : Client) (k : Codec) where
  -- In a scope whose init machine is what `newScope` finds, if no machine has the name that the
  -- backup gives and the backup has a location, then `restoreSnaphotOnInitMachine` does not answer
  -- that the init machine must be set: it panics, with nothing read or written.
  pub restore_without_init_machine :
      (scope : Scope) (p : Memory c.State)
      → scope.init_machine
        ≡ some (find_init_machine scope.etcd_machine_backup.spec.machine_name scope.machines)
      → All (λ machine. machine.name ≢ scope.etcd_machine_backup.spec.machine_name) scope.machines
      → scope.etcd_machine_backup.spec.location ≢ ""
      → restore_snapshot_on_init_machine c k scope p ≡ (panic, p)
  unfolding restore_snapshot_on_init_machine restore_on get_plan_secret_for_machine ◌>>=◌
  restore_without_init_machine scope p is none_named located = rw (
    is,
    other_name scope.etcd_machine_backup.spec.location "" located,
    find_init_machine-empty scope.etcd_machine_backup.spec.machine_name scope.machines none_named,
  )
