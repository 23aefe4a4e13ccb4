-- ===== src/Restore/Steps.antt =====
-- What `reconcileNormal` does with a scope is a step of the specification.
use turtles_etcd_restore.Base.{
  String, ◌≡◌, ◌≢◌, refl, sym, ◌∙◌, ap, inl, inr, true, false, none, some, List, [], ◌∷◌, All,
  All-of, In, ◌==◌, eq_iff, arith, Bool-cases,
}
use mathlib.Core.Path.{subst}
use turtles_etcd_restore.Api.{EtcdSnapshotSpec}
use turtles_etcd_restore.Api.Phase
use turtles_etcd_restore.Objects.{Machine, Cluster}
use turtles_etcd_restore.Go.Outcome.{M, Outcome, done, ok, err, panic, continue, ◌>>=◌}
use turtles_etcd_restore.Go.Rules.{wrapped-eq_ok, answered-eq_ok}
use turtles_etcd_restore.Client.{Client, Codec}
use turtles_etcd_restore.Client.Laws.{Rely}
use turtles_etcd_restore.Restore.Scope.{Scope, find_init_machine}
use turtles_etcd_restore.Restore.Phases.{
  Memory, Result, stop_rke2_on_all_machines, restore_snapshot_on_init_machine,
  start_rke2_on_all_machines,
}
use turtles_etcd_restore.Restore.Reconcile.{all_running, set_paused, switch_phase, reconcile_scope}
use turtles_etcd_restore.Restore.Reads.{HasRead, ReadScope, after_reads, find_init-cases}
use turtles_etcd_restore.Restore.Order.{Move, switch_moves}
use turtles_etcd_restore.Restore.Stopped.{shutdown_reported}
use turtles_etcd_restore.Restore.Restored.{restore_reported}
use turtles_etcd_restore.Restore.Started.{InitApart, finished_reported}
use turtles_etcd_restore.Restore.Spec.{Ready, Apart, Step, wait, commence, halt, recover, complete}

pub differ : (a b : String) → (a == b) ≡ false → a ≢ b
differ a b e h = ground (arith, eq_iff a b)

-- In a scope whose init machine is the one that is looked up, it has a plan secret of its own.
InitApart-of :
    (scope : Scope) (name : String)
    → Apart scope.machines
    → InitApart scope (find_init_machine name scope.machines)
InitApart-of scope name apart config has = elim (find_init-cases name scope.machines) [
  | inl e ↦ absurd (none_not (ap (λ (m : Machine). m.config_ref) (sym e) ∙ has))
  | inr i ↦
      All-of _ scope.machines
        (λ m j other config' has'. apart m _ j i.0 (differ _ _ other) config' config has' has)
]
  where
    none_not : none ≡ some config → ⊥
    none_not h = cc

-- A machine that has a bootstrap reference, and was looked up, is there and has the name.
looked_up :
    (name : String) (machines : List Machine) (machine : Machine) (config : String)
    → some (find_init_machine name machines) ≡ some machine
    → machine.config_ref ≡ some config
    → In machine machines × (machine.name ≡ name)
looked_up name machines machine config init has =
    subst (λ m. In m machines × (m.name ≡ name)) same
      (elim (find_init-cases name machines) [
        | inl e ↦ absurd (none_not (ap (λ (m : Machine). m.config_ref) (sym e ∙ same) ∙ has))
        | inr found ↦ found
      ])
  where
    same : find_init_machine name machines ≡ machine
    same = cc

    none_not : none ≡ some config → ⊥
    none_not h = cc

running_All :
    (machines : List Machine)
    → all_running machines ≡ true
    → All (λ m. m.phase ≡ "Running") machines
unfolding all_running
running_All [] h = tt
running_All (m ∷ ms) h = elim (Bool-cases (m.phase == "Running")) [
  | inl e ↦ ((eq_iff m.phase "Running").0 e, running_All ms (rw e at h))
  | inr e ↦ absurd (differ_Bool (rw e at h))
]
  where
    differ_Bool : false ≡ true → ⊥
    differ_Bool h' = cc

module _ (c : Client) (k : Codec) (L : Rely c k.sha256) (namespace : String)
    (spec : EtcdSnapshotSpec) (s : c.State) where
  -- A scope of what was read, of machines that run, and of a cluster that was then paused.
  record Prepared (scope : Scope) (paused : Cluster) : Type 0 where
    read : HasRead c namespace spec s scope.cluster scope.machines scope.etcd_machine_backup
    init :
        scope.init_machine
        ≡ some (find_init_machine scope.etcd_machine_backup.spec.machine_name scope.machines)
    running : all_running scope.machines ≡ true
    pause :
        (c.patch_cluster scope.cluster
          (record scope.cluster { paused = true })
          (after_reads c namespace spec scope.cluster s)).0
        ≡ done paused

  abbrev ready_of :
      (scope : Scope) (paused : Cluster) → Prepared scope paused → Ready c namespace spec s
  ready_of scope paused h = record {
    cluster = scope.cluster;
    machines = scope.machines;
    backup = scope.etcd_machine_backup;
    read = h.read;
    running = running_All scope.machines h.running;
    paused = paused;
    pause = h.pause;
  }

  -- The scope after its cluster was paused.
  abbrev with_paused : Scope → Cluster → Scope
  with_paused scope paused = record scope { cluster = paused }

  halt_Step :
      (scope : Scope) (paused : Cluster) (p : Memory c.State)
      → Prepared scope paused
      → p.obj.status.phase ≡ Phase.started
      → (stop_rke2_on_all_machines c k (with_paused scope paused) p).1.obj.status.phase
        ≡ Phase.shutdown
      → Step c k L namespace spec s p.obj.status.phase
          (stop_rke2_on_all_machines c k (with_paused scope paused) p).1
  halt_Step scope paused p h is now = halt (inr is) now (ready_of scope paused h) (
      shutdown_reported c k L (with_paused scope paused) p
        (λ e. differ Phase.started Phase.shutdown refl (sym is ∙ e)) now)

  recover_Step :
      (scope : Scope) (paused : Cluster) (p : Memory c.State)
      → Prepared scope paused
      → p.obj.status.phase ≡ Phase.shutdown
      → (restore_snapshot_on_init_machine c k (with_paused scope paused) p).1.obj.status.phase
        ≡ Phase.restore
      → Step c k L namespace spec s p.obj.status.phase
          (restore_snapshot_on_init_machine c k (with_paused scope paused) p).1
  recover_Step scope paused p h is now =
      let (machine, init, located, (config, has, reported)) =
        restore_reported c k L (with_paused scope paused) p
          (λ e. differ Phase.shutdown Phase.restore refl (sym is ∙ e)) now in
      let (there, named) =
        looked_up scope.etcd_machine_backup.spec.machine_name scope.machines machine config
          (sym h.init ∙ init) has in
      recover is now (ready_of scope paused h) located machine there named (config, has, reported)

  complete_Step :
      (scope : Scope) (paused : Cluster) (p : Memory c.State)
      → Prepared scope paused
      → Apart scope.machines
      → p.obj.status.phase ≡ Phase.restore
      → (start_rke2_on_all_machines c k (with_paused scope paused) p).1.obj.status.phase
        ≡ Phase.finished
      → Step c k L namespace spec s p.obj.status.phase
          (start_rke2_on_all_machines c k (with_paused scope paused) p).1
  complete_Step scope paused p h apart is now =
      let name : String = scope.etcd_machine_backup.spec.machine_name in
      let machine : Machine = find_init_machine name scope.machines in
      let (addressed, ((config, has, reported), joined)) =
        finished_reported c k L (with_paused scope paused) machine p h.init
          (InitApart-of (with_paused scope paused) name apart)
          (λ e. differ Phase.restore Phase.finished refl (sym is ∙ e)) now in
      let (there, named) = looked_up name scope.machines machine config refl has in
      complete is now (ready_of scope paused h) machine there named addressed
        (config, has, reported) joined

  -- A step of the switch at another name of its phase.
  abbrev SwitchStep : Scope → Memory c.State → String → String → Type 0
  SwitchStep scope p to x =
      (switch_phase c k x scope p).1.obj.status.phase ≡ to
      → Step c k L namespace spec s p.obj.status.phase (switch_phase c k x scope p).1

  -- The switch makes a step.
  switch_Step :
      (scope : Scope) (paused : Cluster) (p : Memory c.State)
      → Prepared scope paused
      → Apart scope.machines
      → Step c k L namespace spec s p.obj.status.phase
          (switch_phase c k p.obj.status.phase (with_paused scope paused) p).1
  unfolding switch_phase ◌>>=◌
  switch_Step scope paused p h apart = go (switch_moves c k (with_paused scope paused) p).1
    where
      phase : String
      phase = p.obj.status.phase

      after : Memory c.State
      after = (switch_phase c k phase (with_paused scope paused) p).1

      StepTo : String → String → Type 0
      StepTo = SwitchStep (with_paused scope paused) p

      go : Move phase after.obj.status.phase → Step c k L namespace spec s phase after
      go (Move.stay e) = wait e
      go (Move.commence e now) = commence e now
      go (Move.halt (inl e) now) =
          subst (StepTo Phase.shutdown) (sym e)
            (λ then_now. absurd (differ "" Phase.shutdown refl (sym e ∙ then_now))) now
      go (Move.halt (inr e) now) =
          subst (StepTo Phase.shutdown) (sym e) (halt_Step scope paused p h e) now
      go (Move.recover e now) =
          subst (StepTo Phase.restore) (sym e) (recover_Step scope paused p h e) now
      go (Move.complete e now) =
          subst (StepTo Phase.finished) (sym e) (complete_Step scope paused p h apart e) now

  -- What does not change the restore object, before a run that makes a step.
  pub continue-Step :
      {A : Type 0} (r : Outcome A) (f : A → M (Memory c.State) Result) (p : Memory c.State)
      → ((a : A) → r ≡ ok a → Step c k L namespace spec s p.obj.status.phase (f a p).1)
      → Step c k L namespace spec s p.obj.status.phase (continue r f p).1
  continue-Step (ok a) f p h = h a refl
  continue-Step (err e) f p h = wait refl
  continue-Step panic f p h = wait refl

  set_paused-done :
      (cluster : Cluster) (p : Memory c.State) (x : Cluster)
      → (set_paused c k true cluster p).0 ≡ ok x
      → (c.patch_cluster cluster (record cluster { paused = true }) p.store).0 ≡ done x
  unfolding set_paused ◌>>=◌
  set_paused-done cluster p x e = answered-eq_ok _ (wrapped-eq_ok "failed to pause cluster" _ e)

  pub scope_Step :
      (scope : Scope) (p : Memory c.State)
      → ReadScope c namespace spec s scope p.store
      → Apart scope.machines
      → Step c k L namespace spec s p.obj.status.phase (reconcile_scope c k scope p).1
  unfolding reconcile_scope ◌>>=◌
  scope_Step scope p h apart = elim (Bool-cases (all_running scope.machines)) [
    | inl running ↦ rw running (
        continue-Step (set_paused c k true scope.cluster p).0
          (λ cluster q. switch_phase c k q.obj.status.phase (record scope { cluster = cluster }) q)
          (set_paused c k true scope.cluster p).1
          (λ cluster e.
            switch_Step scope cluster (set_paused c k true scope.cluster p).1
              (record {
                read = h.read;
                init = h.init;
                running = running;
                pause = rw (← h.at) (set_paused-done scope.cluster p cluster e);
              })
              apart))
    | inr idle ↦ rw idle (wait refl)
  ]
