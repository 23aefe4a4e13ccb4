-- ===== src/Restore/Started.antt =====
-- The restore is finished only when the init machine and all the others have started RKE2.
use turtles_etcd_restore.Base.{
  String, ◌≡◌, ◌≢◌, refl, ◌∙◌, inl, inr, Bool, true, false, some, arith, All, All-map, ◌==◌, eq_iff,
  Bool-cases,
}
use turtles_etcd_restore.Api.Phase
use turtles_etcd_restore.Objects.{Key, Machine}
use turtles_etcd_restore.Go.Outcome.{Outcome, ok, err, panic, continue, ◌>>=◌}
use turtles_etcd_restore.Go.Rules.{Ensures, Ensures-lift, Ensures-on_err, Ensures-bind, Ensures-of}
use turtles_etcd_restore.Instructions.Distinct.{start_plan, join_plan}
use turtles_etcd_restore.Client.{Client, Codec}
use turtles_etcd_restore.Client.Laws.{Rely}
use turtles_etcd_restore.Restore.Scope.{Scope, get_internal_machine_ip}
use turtles_etcd_restore.Restore.Machines.{start_machines}
use turtles_etcd_restore.Restore.Phases.{
  Memory, start_init_machine, start_others, start_from, start_rke2_on_all_machines,
}
use turtles_etcd_restore.Restore.Applied.{
  plan_key, Reported, Reports, Read, Filled, get_plan-Read, update-Filled,
}
use turtles_etcd_restore.Restore.Loops.{finish-applied}
use turtles_etcd_restore.Restore.Stopped.{ready_of_phase, store-when_ready}
use turtles_etcd_restore.Restore.Restored.{Reports-of_Filled}
use turtles_etcd_restore.Restore.Joined.{
  Elsewhere, Joined, start_machines-All, start_machines-Keeps, apply_plan-Elsewhere,
}

-- Every machine of the scope but the init machine has its plan secret under another key.
abbrev pub InitApart : Scope → Machine → Type 0
InitApart scope init_machine =
    (config : String)
    → init_machine.config_ref ≡ some config
    → All
        (λ machine.
          (machine.name == init_machine.name) ≡ false
          → Elsewhere (plan_key init_machine config) machine)
        scope.machines

module _ (c : Client) (k : Codec) (L : Rely c k.sha256) where
  start_init-Reports :
      {P : c.State → Type 0} (machine : Machine)
      → Ensures P
          (start_init_machine c k machine)
          (λ started s. started ≡ true → Reports c k.sha256 L machine start_plan s)
  unfolding start_init_machine
  start_init-Reports machine =
      Ensures-bind _ _ (Ensures-on_err _ _ (get_plan-Read c k.sha256 L machine)) (λ x.
        Ensures-bind {R = λ plan s. (plan ≡ start_plan) × Read c k.sha256 L machine x s} _ _
          (Ensures-lift _ (λ plan is s read. (cc, read)))
          (λ plan.
            Ensures-bind
              {R = λ y s.
                (plan ≡ start_plan)
                × ((config : String) × (machine.config_ref ≡ some config)
                    × Filled c k.sha256 L (plan_key machine config) plan y s)}
              _ _
              (Ensures-on_err _ _ (record {
                at = λ s (is, (config, has, here, name)) y e.
                    let filled =
                      (update-Filled c k.sha256 L x plan).at s (x, rw name here, λ e. refl) y e in
                    (is, (config, has, (filled.0, filled.1 ∙ name, filled.2)));
              }))
              (λ y.
                Ensures-of
                  (λ ready s ((is, filled), applied) now.
                    rw (← is) (Reports-of_Filled c k L machine plan y s filled (applied now)))
                  (finish-applied c k L plan y))))

  others_reported :
      (scope : Scope) (machine : Machine) (started : Bool) (p : Memory c.State)
      → p.obj.status.phase ≢ Phase.finished
      → (start_others c k scope machine started p).1.obj.status.phase ≡ Phase.finished
      → InitApart scope machine
      → (started ≡ true → Reports c k.sha256 L machine start_plan p.store)
      → Reports c k.sha256 L machine start_plan (start_others c k scope machine started p).1.store
        × All
            (Joined c k L machine.name
              (get_internal_machine_ip machine)
              (start_others c k scope machine started p).1.store)
            scope.machines
  unfolding start_others ◌>>=◌
  others_reported scope machine false p h e apart reports = absurd (h e)
  others_reported scope machine true p h e apart reports =
      let ip : String = get_internal_machine_ip machine in
      let (config, has, reported) = reports refl in
      let key : Key = plan_key machine config in
      let (r, s) = start_machines c k machine.name ip scope.machines true p.store in
      let all = ready_of_phase Phase.finished r (record p { store = s }) h e in
      rw (store-when_ready Phase.finished) (
        (
          config,
          has,
          (start_machines-Keeps c k L machine.name ip {P = Reported c k.sha256 L key start_plan}
                scope.machines true
                (All-map
                  (λ m elsewhere isnt.
                    apply_plan-Elsewhere c k L key start_plan (join_plan ip) m (elsewhere isnt))
                  scope.machines (apart config has))).at
              p.store reported,
        ),
        ((start_machines-All c k L machine.name ip {P = λ _. Unit {0}} scope.machines true).at
            p.store tt true all refl).1,
      )

  -- What is known of a state in which the restore is finished.
  abbrev pub AllStarted : Scope → Machine → c.State → Type 0
  AllStarted scope machine s =
      Reports c k.sha256 L machine start_plan s
      × All (Joined c k L machine.name (get_internal_machine_ip machine) s) scope.machines

  continued_reported :
      (scope : Scope) (machine : Machine) (r : Outcome Bool) (p : Memory c.State)
      → p.obj.status.phase ≢ Phase.finished
      → InitApart scope machine
      → ((started : Bool)
          → r ≡ ok started
          → started ≡ true
          → Reports c k.sha256 L machine start_plan p.store)
      → (continue r (start_others c k scope machine) p).1.obj.status.phase ≡ Phase.finished
      → AllStarted scope machine (continue r (start_others c k scope machine) p).1.store
  continued_reported scope machine (ok started) p h apart reports e =
      others_reported scope machine started p h e apart (reports started refl)
  continued_reported scope machine (err x) p h apart reports e = absurd (h e)
  continued_reported scope machine panic p h apart reports e = absurd (h e)

  start_from_reported :
      (scope : Scope) (machine : Machine) (p : Memory c.State)
      → p.obj.status.phase ≢ Phase.finished
      → InitApart scope machine
      → (start_from c k scope machine p).1.obj.status.phase ≡ Phase.finished
      → (get_internal_machine_ip machine ≢ "")
        × AllStarted scope machine (start_from c k scope machine p).1.store
  unfolding start_from ◌>>=◌
  start_from_reported scope machine p h apart e =
      elim (Bool-cases (get_internal_machine_ip machine == "")) [
        | inl empty ↦ absurd (h (rw (empty, start_from) at e))
        | inr set ↦ (
          λ q. ground (arith, eq_iff (get_internal_machine_ip machine) ""),
          rw set (
              let (r, s) = start_init_machine c k machine p.store in
              continued_reported scope machine r (record p { store = s }) h apart
                ((start_init-Reports {P = λ _. Unit {0}} machine).at p.store tt) (rw set at e)),
        )
      ]

  -- If `startRKE2OnAllMachines` moves the restore to the finished phase, where no other machine of
  -- the scope shares the init machine's plan secret, then the init machine has an internal address
  -- and its plan secret holds the plan that starts RKE2 and reports it as applied, and so does the
  -- plan secret of each machine of another name with the plan that joins it to that address.
  pub finished_reported :
      (scope : Scope) (machine : Machine) (p : Memory c.State)
      → scope.init_machine ≡ some machine
      → InitApart scope machine
      → p.obj.status.phase ≢ Phase.finished
      → (start_rke2_on_all_machines c k scope p).1.obj.status.phase ≡ Phase.finished
      → (get_internal_machine_ip machine ≢ "")
        × AllStarted scope machine (start_rke2_on_all_machines c k scope p).1.store
  unfolding start_rke2_on_all_machines ◌>>=◌ start_from
  finished_reported scope machine p is apart h e =
      rw is (start_from_reported scope machine p h apart (rw is at e))
