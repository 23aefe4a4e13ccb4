-- ===== src/Restore/Normal.antt =====
-- `reconcileNormal` writes nothing but what is the cluster's of the restore.
use turtles_etcd_restore.Base.{
  String, ◌≡◌, refl, ap, sym, ◌∙◌, inl, inr, Bool, true, false, Bool-cases, none, some, In, All,
  All-of, ◌==◌,
}
use mathlib.Core.Path.{subst}
use turtles_etcd_restore.Api.{EtcdSnapshotRestore}
use turtles_etcd_restore.Api.Phase
use turtles_etcd_restore.Objects.{Key, Machine, Cluster}
use turtles_etcd_restore.Go.Outcome.{M, Outcome, ok, err, panic, continue, ◌>>=◌}
use turtles_etcd_restore.Go.Rules.{
  Keeps, Keeps-pure, Keeps-call, Keeps-on_err, Keeps-bind, Keeps-if, Leaves-bind, Ensures,
  wrapped-eq_ok, answered-eq_ok,
}
use turtles_etcd_restore.Client.{Client, Codec}
use turtles_etcd_restore.Restore.Scope.{Scope, find_init_machine, new_scope}
use turtles_etcd_restore.Restore.Phases.{Memory, Result, with_phase}
use turtles_etcd_restore.Restore.Reconcile.{
  set_paused, switch_phase, reconcile_scope, reconcile_normal,
}
use turtles_etcd_restore.Restore.Frame.{
  ClusterFrame, NamedCluster, answered, patched, MachineOf, Known, cluster_of,
}
use turtles_etcd_restore.Restore.Reads.{ReadScope, new_scope-Read, find_init-cases}
use turtles_etcd_restore.Restore.Work.{stop-Frame, restore-Frame, start-Frame}
use turtles_etcd_restore.Restore.Refused.{Stored, Keeps-on_store, Keeps-new_scope}

module _ (c : Client) (key : Key) where
  -- A scope of the cluster, of machines that are listed for it.
  record OurScope (scope : Scope) : Type 0 where
    named : NamedCluster c key scope.cluster
    machines : All (Known (MachineOf c key)) scope.machines
    init : (machine : Machine) → scope.init_machine ≡ some machine → Known (MachineOf c key) machine

module _ (c : Client) (restore : EtcdSnapshotRestore) where
  ours-of :
      (s : c.State) (scope : Scope) (t : c.State)
      → ReadScope c restore.namespace restore.spec s scope t
      → OurScope c (cluster_of restore) scope
  ours-of s scope t h = record {
    named = named;
    machines = All-of _ scope.machines (λ m there config has. ours m there);
    init = λ machine is config has.
        elim (find_init-cases scope.etcd_machine_backup.spec.machine_name scope.machines) [
          | inl e ↦
              absurd
                (none_not (ap (λ (m : Machine). m.config_ref) (sym e ∙ looked_up machine is) ∙ has))
          | inr found ↦
              subst (MachineOf c (cluster_of restore)) (looked_up machine is) (ours _ found.0)
        ];
  }
    where
      named : NamedCluster c (cluster_of restore) scope.cluster
      named = answered scope.cluster s h.read.cluster_read

      ours : (m : Machine) → In m scope.machines → MachineOf c (cluster_of restore) m
      ours m there = record {
        cluster = scope.cluster;
        machines = scope.machines;
        named = named;
        at = _;
        listed = h.read.machines_read;
        there = there;
      }

      looked_up :
          (machine : Machine)
          → scope.init_machine ≡ some machine
          → find_init_machine scope.etcd_machine_backup.spec.machine_name scope.machines ≡ machine
      looked_up machine is = is_some (sym h.init ∙ is)
        where
          is_some : {x y : Machine} → some x ≡ some y → x ≡ y
          is_some e = cc

      none_not : {config : String} → none ≡ some config → ⊥
      none_not e = cc

module _ (c : Client) (k : Codec) (key : Key) {P : c.State → Type 0}
    (F : ClusterFrame c key P) where
  set_paused-Frame :
      (paused : Bool) (cluster : Cluster)
      → NamedCluster c key cluster
      → Keeps (Stored P) (set_paused c k paused cluster)
  unfolding set_paused
  set_paused-Frame paused cluster named =
      Keeps-on_store _
        (Keeps-on_err _ _ (Keeps-call _ (λ s h. F.patch_cluster cluster paused s named h)))

  set_paused-Named :
      {Q : Memory c.State → Type 0} (paused : Bool) (cluster : Cluster)
      → NamedCluster c key cluster
      → Ensures Q (set_paused c k paused cluster) (λ x _. NamedCluster c key x)
  unfolding set_paused ◌>>=◌
  set_paused-Named paused cluster named = record {
    at = λ p h x e. patched cluster x paused p.store named (answered-eq_ok _ (wrapped-eq_ok _ _ e));
  }

  switch-Frame :
      (phase : String) (scope : Scope)
      → OurScope c key scope
      → Keeps (Stored P) (switch_phase c k phase scope)
  unfolding switch_phase
  switch-Frame phase scope ours = Keeps-if _ _ _ (stop-Frame c k F.secrets scope ours.machines) (
      Keeps-if _ _ _ (restore-Frame c k F.secrets scope ours.init) (
        Keeps-if _ _ _ (start-Frame c k F.secrets scope ours.init ours.machines) (
          Keeps-if _ _ _
            (Keeps-bind _ _ (set_paused-Frame false scope.cluster ours.named) (λ _. Keeps-pure _))
            (Keeps-pure _))))

  reconcile_scope-Frame :
      (scope : Scope) → OurScope c key scope → Keeps (Stored P) (reconcile_scope c k scope)
  unfolding reconcile_scope
  reconcile_scope-Frame scope ours =
      Keeps-if _ _ _
        (Leaves-bind {R = λ x _. NamedCluster c key x} _ _
          (set_paused-Frame true scope.cluster ours.named)
          (set_paused-Named true scope.cluster ours.named)
          (λ cluster. record {
            at = λ p (named, h).
                (switch-Frame p.obj.status.phase (record scope { cluster = cluster })
                    (record { named = named; machines = ours.machines; init = ours.init })).at
                  p h;
          }))
        (Keeps-pure _)

module _ (c : Client) (k : Codec) (P : c.State → Type 0) where
  continue-kept :
      {A : Type 0} (r : Outcome A) (f : A → M (Memory c.State) Result) (p : Memory c.State)
      → P p.store
      → ((a : A) → r ≡ ok a → P (f a p).1.store)
      → P (continue r f p).1.store
  continue-kept (ok a) f p h l = l a refl
  continue-kept (err e) f p h l = h
  continue-kept panic f p h l = h

  set-Frame :
      (p : Memory c.State)
      → ClusterFrame c (cluster_of p.obj) P
      → (p.obj.status.phase == "") ≡ false
      → P p.store
      → P (reconcile_normal c k p).1.store
  unfolding reconcile_normal ◌>>=◌
  set-Frame p F set h =
      let after : c.State = (new_scope c p.obj p.store).1 in
      let kept : P after =
        (Keeps-new_scope c {P = P} F.get_cluster F.list_machines F.get_backup p.obj).at p.store h in
      rw set (
        continue-kept (new_scope c p.obj p.store).0 (reconcile_scope c k)
          (record p { store = after }) kept
          (λ scope e.
            let read = (new_scope-Read c p.obj p.store).at p.store refl scope e in
            (reconcile_scope-Frame c k (cluster_of p.obj) F scope
                (ours-of c p.obj p.store scope _ read)).at
              (record p { store = after }) kept))

  pub normal-Frame :
      (p : Memory c.State)
      → ClusterFrame c (cluster_of p.obj) P
      → P p.store
      → P (reconcile_normal c k p).1.store
  unfolding reconcile_normal ◌>>=◌
  normal-Frame p F h = elim (Bool-cases (p.obj.status.phase == "")) [
    | inl is ↦ rw is (
        set-Frame (record p { obj = with_phase Phase.started p.obj })
          (record {
            get_cluster = F.get_cluster;
            get_backup = F.get_backup;
            list_machines = F.list_machines;
            patch_cluster = F.patch_cluster;
            secrets = F.secrets;
          })
          refl h)
    | inr set ↦ set-Frame p F set h
  ]
