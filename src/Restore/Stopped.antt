-- ===== src/Restore/Stopped.antt =====
-- The shutdown phase is entered only when every machine has stopped RKE2.
use turtles_etcd_restore.Base.{String, ◌≡◌, ◌≢◌, refl, Bool, true, false, All}
use turtles_etcd_restore.Api.Phase
use turtles_etcd_restore.Go.Outcome.{Outcome, ok, err, panic, continue, ◌>>=◌}
use turtles_etcd_restore.Instructions.Distinct.{kill_plan}
use turtles_etcd_restore.Client.{Client, Codec}
use turtles_etcd_restore.Client.Laws.{Rely}
use turtles_etcd_restore.Restore.Scope.{Scope}
use turtles_etcd_restore.Restore.Machines.{stop_machines}
use turtles_etcd_restore.Restore.Phases.{Memory, when_ready, stop_rke2_on_all_machines}
use turtles_etcd_restore.Restore.Applied.{Reports}
use turtles_etcd_restore.Restore.Loops.{stop_machines-All}

module _ {S : Type 0} (phase : String) where
  -- What the phase says of the answer that a function waits for.
  pub ready_of_phase :
      (r : Outcome Bool) (p : Memory S)
      → p.obj.status.phase ≢ phase
      → (continue r (when_ready phase) p).1.obj.status.phase ≡ phase
      → r ≡ ok true
  unfolding ◌>>=◌
  ready_of_phase (ok true) p h e = refl
  ready_of_phase (ok false) p h e = absurd (h e)
  ready_of_phase (err x) p h e = absurd (h e)
  ready_of_phase panic p h e = absurd (h e)

  pub store-when_ready :
      (r : Outcome Bool) (p : Memory S) → (continue r (when_ready phase) p).1.store ≡ p.store
  unfolding ◌>>=◌
  store-when_ready (ok true) p = refl
  store-when_ready (ok false) p = refl
  store-when_ready (err x) p = refl
  store-when_ready panic p = refl

module _ (c : Client) (k : Codec) (L : Rely c k.sha256) where
  -- If `stopRKE2OnAllMachines` moves the restore to the shutdown phase, then afterwards the plan
  -- secret of every machine of the scope holds the plan that stops RKE2 and reports its checksum
  -- as applied, while the agents may act on the secrets between any two calls.
  pub shutdown_reported :
      (scope : Scope) (p : Memory c.State)
      → p.obj.status.phase ≢ Phase.shutdown
      → (stop_rke2_on_all_machines c k scope p).1.obj.status.phase ≡ Phase.shutdown
      → All
          (λ machine.
            Reports c k.sha256 L machine kill_plan (stop_rke2_on_all_machines c k scope p).1.store)
          scope.machines
  unfolding stop_rke2_on_all_machines ◌>>=◌
  shutdown_reported scope p h e =
      let (r, s) = stop_machines c k scope.machines true p.store in
      let all = ready_of_phase Phase.shutdown r (record p { store = s }) h e in
      rw (store-when_ready Phase.shutdown)
        ((stop_machines-All c k L {P = λ _. Unit {0}} scope.machines true).at p.store tt true all
          refl).1
