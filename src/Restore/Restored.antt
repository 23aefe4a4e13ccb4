-- ===== src/Restore/Restored.antt =====
-- The restore phase is entered only when the init machine has run the restore of the snapshot.
use turtles_etcd_restore.Base.{
  String, ◌≡◌, ◌≢◌, refl, ◌∙◌, true, Option, none, some, arith, Bool-cases, inl, inr, ◌==◌, eq_iff,
}
use turtles_etcd_restore.Api.Phase
use turtles_etcd_restore.Api.{EtcdMachineBackup}
use turtles_etcd_restore.Objects.{Machine, Secret}
use turtles_etcd_restore.Go.Bytes.{Bytes, entry}
use turtles_etcd_restore.Go.Outcome.{◌>>=◌}
use turtles_etcd_restore.Go.Rules.{Ensures, Ensures-lift, Ensures-on_err, Ensures-bind, Ensures-of}
use turtles_etcd_restore.Instructions.Distinct.{restore_plan}
use turtles_etcd_restore.Instructions.{is_plan_applied}
use turtles_etcd_restore.Client.{Client, Codec}
use turtles_etcd_restore.Client.Laws.{Rely}
use turtles_etcd_restore.Restore.Scope.{Scope}
use turtles_etcd_restore.Restore.PlanSecret.{with_content}
use turtles_etcd_restore.Restore.Phases.{
  Memory, restore_on, restore_with, restore_snapshot_on_init_machine,
}
use turtles_etcd_restore.Restore.Applied.{
  plan_key, Reports, Read, Filled, get_plan-Read, update-Filled, Holds-of_Read,
}
use turtles_etcd_restore.Restore.Loops.{finish-applied}
use turtles_etcd_restore.Restore.Stopped.{ready_of_phase, store-when_ready}

module _ (c : Client) (k : Codec) (L : Rely c k.sha256) where
  -- A filled secret of the machine that has the checksum of the plan.
  pub Reports-of_Filled :
      (machine : Machine) (plan : Bytes) (y : Secret) (s : c.State)
      → ((config : String) × (machine.config_ref ≡ some config)
          × Filled c k.sha256 L (plan_key machine config) plan y s)
      → is_plan_applied k.sha256 plan (entry y.content "applied-checksum") ≡ true
      → Reports c k.sha256 L machine plan s
  Reports-of_Filled machine plan y s (config, has, ((z, held, same), name, planned)) applied = (
    config,
    has,
    (z, rw (← name) held, same "plan" ∙ planned, rw (same "applied-checksum") applied),
  )

  restore_on-Reports :
      {P : c.State → Type 0} (machine : Machine) (backup : EtcdMachineBackup)
      → Ensures P
          (restore_on c k machine backup)
          (λ ready s. ready ≡ true → Reports c k.sha256 L machine (restore_plan backup) s)
  unfolding restore_on
  restore_on-Reports machine backup =
      Ensures-bind _ _ (Ensures-on_err _ _ (get_plan-Read c k.sha256 L machine)) (λ x.
        Ensures-bind {R = λ plan s. (plan ≡ restore_plan backup) × Read c k.sha256 L machine x s} _
          _ (Ensures-lift _ (λ plan is s read. (cc, read)))
          (λ plan.
            Ensures-bind
              {R = λ y s.
                (plan ≡ restore_plan backup)
                × ((config : String) × (machine.config_ref ≡ some config)
                    × Filled c k.sha256 L (plan_key machine config) plan y s)}
              _ _
              (Ensures-on_err _ _ (record {
                at = λ s (is, (config, has, here, name)) y e.
                    let filled =
                      (update-Filled c k.sha256 L (with_content x) plan).at s
                        (Holds-of_Read c k.sha256 L machine x s (config, has, here, name)) y e in
                    (is, (config, has, (filled.0, filled.1 ∙ name, filled.2)));
              }))
              (λ y.
                Ensures-of
                  (λ ready s ((is, filled), applied) now.
                    rw (← is) (Reports-of_Filled machine plan y s filled (applied now)))
                  (finish-applied c k L plan y))))

  restore_with_reported :
      (backup : EtcdMachineBackup) (init_machine : Option Machine) (p : Memory c.State)
      → p.obj.status.phase ≢ Phase.restore
      → (restore_with c k backup init_machine p).1.obj.status.phase ≡ Phase.restore
      → (machine : Machine) × (init_machine ≡ some machine)
        × Reports c k.sha256 L machine
            (restore_plan backup)
            (restore_with c k backup init_machine p).1.store
  unfolding restore_with ◌>>=◌
  restore_with_reported backup none p h e = absurd (h e)
  restore_with_reported backup (some machine) p h e =
      let (r, s) = restore_on c k machine backup p.store in
      let ready = ready_of_phase Phase.restore r (record p { store = s }) h e in
      (
        machine,
        refl,
        rw (store-when_ready Phase.restore)
            ((restore_on-Reports {P = λ _. Unit {0}} machine backup).at p.store tt true ready refl),
      )

  -- If `restoreSnaphotOnInitMachine` moves the restore to the restore phase, then the scope has an
  -- init machine, the backup has a location, and afterwards the init machine's plan secret holds
  -- the plan that restores the backup and reports its checksum as applied.
  pub restore_reported :
      (scope : Scope) (p : Memory c.State)
      → p.obj.status.phase ≢ Phase.restore
      → (restore_snapshot_on_init_machine c k scope p).1.obj.status.phase ≡ Phase.restore
      → (machine : Machine) × (scope.init_machine ≡ some machine)
        × (scope.etcd_machine_backup.spec.location ≢ "")
        × Reports c k.sha256 L machine
            (restore_plan scope.etcd_machine_backup)
            (restore_snapshot_on_init_machine c k scope p).1.store
  unfolding restore_snapshot_on_init_machine ◌>>=◌
  restore_reported scope p h e = elim (Bool-cases (scope.etcd_machine_backup.spec.location == "")) [
    | inl empty ↦ absurd (h (rw (empty, restore_snapshot_on_init_machine) at e))
    | inr set ↦
        let (machine, is, reports) =
          restore_with_reported scope.etcd_machine_backup scope.init_machine p h (rw set at e) in
        (
          machine,
          is,
          λ q. ground (arith, eq_iff scope.etcd_machine_backup.spec.location ""),
          rw set reports,
        )
  ]
