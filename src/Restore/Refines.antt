-- ===== src/Restore/Refines.antt =====
-- `reconcileNormal` implements the specification of a run.
use turtles_etcd_restore.Base.{String, ◌≡◌, refl, inl, inr, false, List, ◌==◌, eq_iff, Bool-cases}
use turtles_etcd_restore.Api.{EtcdSnapshotSpec}
use turtles_etcd_restore.Api.Phase
use turtles_etcd_restore.Objects.{Machine}
use turtles_etcd_restore.Go.Outcome.{◌>>=◌}
use turtles_etcd_restore.Client.{Client, Codec}
use turtles_etcd_restore.Client.Laws.{Rely}
use turtles_etcd_restore.Restore.Scope.{new_scope}
use turtles_etcd_restore.Restore.Phases.{Memory, with_phase}
use turtles_etcd_restore.Restore.Reconcile.{reconcile_scope, reconcile_normal}
use turtles_etcd_restore.Restore.Reads.{new_scope-Read}
use turtles_etcd_restore.Restore.Spec.{Listed, Apart, Step, wait, commence, halt, recover, complete}
use turtles_etcd_restore.Restore.Steps.{differ, continue-Step, scope_Step}

module _ (c : Client) (k : Codec) (L : Rely c k.sha256) where
  normal_Step :
      (apart : (machines : List Machine) → Listed c machines → Apart machines) (p : Memory c.State)
      → (p.obj.status.phase == "") ≡ false
      → Step c k L p.obj.namespace p.obj.spec p.store p.obj.status.phase (reconcile_normal c k p).1
  unfolding reconcile_normal ◌>>=◌
  normal_Step apart p set = rw set (
      continue-Step c k L p.obj.namespace p.obj.spec p.store (new_scope c p.obj p.store).0
        (reconcile_scope c k) (record p { store = (new_scope c p.obj p.store).1 })
        (λ scope e.
          let h = (new_scope-Read c p.obj p.store).at p.store refl scope e in
          scope_Step c k L p.obj.namespace p.obj.spec p.store scope
            (record p { store = (new_scope c p.obj p.store).1 }) h
            (apart scope.machines (_, _, _, h.read.machines_read))))

  begun_Step :
      (namespace : String) (spec : EtcdSnapshotSpec) (s : c.State) (q : Memory c.State)
      → Step c k L namespace spec s Phase.started q
      → Step c k L namespace spec s "" q
  begun_Step namespace spec s q (wait e) = commence refl e
  begun_Step namespace spec s q (commence e h) = absurd (differ Phase.started "" refl e)
  begun_Step namespace spec s q (halt e h ready reports) = halt (inl refl) h ready reports
  begun_Step namespace spec s q (recover e h ready located machine there named reports) =
      absurd (differ Phase.started Phase.shutdown refl e)
  begun_Step namespace spec s q (complete e h ready machine there named addressed reports joined) =
      absurd (differ Phase.started Phase.restore refl e)

  -- If the server lists no two machines of different names with the same plan secret, then every
  -- run of `reconcileNormal`, also one that ends in an error or a panic, is a step of the
  -- specification. It enters no phase out of order. It enters the shutdown, the restore and the
  -- finished phase only where, from the state before it on, the server has answered the cluster
  -- that the restore names, the machines of this cluster, all of them running, and the backup that
  -- the restore names, and has then accepted to pause this cluster; and where at the end these
  -- machines have reported the plans that the phase stands for: all of them the one that stops
  -- RKE2, the one with the name in the backup the one that restores this backup, or this one the
  -- plan that starts RKE2 and each of another name the plan that joins it to this one's address.
  pub reconcile_normal-Step :
      (apart : (machines : List Machine) → Listed c machines → Apart machines) (p : Memory c.State)
      → Step c k L p.obj.namespace p.obj.spec p.store p.obj.status.phase (reconcile_normal c k p).1
  unfolding reconcile_normal ◌>>=◌
  reconcile_normal-Step apart p = elim (Bool-cases (p.obj.status.phase == "")) [
    | inl is ↦ rw is (
        rw ((eq_iff _ _).0 is) (
          begun_Step p.obj.namespace p.obj.spec p.store _
            (normal_Step apart (record p { obj = with_phase Phase.started p.obj }) refl)))
    | inr set ↦ normal_Step apart p set
  ]
