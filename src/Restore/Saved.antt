-- ===== src/Restore/Saved.antt =====
-- When a reconciliation succeeds, what it has saved of the restore object.
use turtles_etcd_restore.Base.{◌≡◌, ◌↔◌}
use turtles_etcd_restore.Api.{EtcdSnapshotRestore}
use turtles_etcd_restore.Go.Outcome.{Outcome, ok, err, panic, nil, Reply, done, fail}
use turtles_etcd_restore.Client.{Client, Codec}
use turtles_etcd_restore.Restore.Phases.{Memory, Result}
use turtles_etcd_restore.Restore.Reconcile.{
  reconcile_normal, reconcile_object, patch_back, written_back, aggregated, patch_error, patched,
}

abbrev pub IsDone : {A : Type 0} → Reply A → Type 0
IsDone (done a) = Unit
IsDone (fail e) = ⊥

module _ (c : Client) (k : Codec) where
  -- What the first patch of `Reconcile` is answered, the object that the second one is given, and
  -- what that is answered.
  abbrev pub first_patch :
      EtcdSnapshotRestore → Memory c.State → Reply EtcdSnapshotRestore × c.State
  first_patch base p = c.patch_restore base p.obj p.store

  abbrev pub status_object : EtcdSnapshotRestore → Memory c.State → EtcdSnapshotRestore
  status_object base p = record (patched c k p.obj (first_patch base p).0) { status = p.obj.status }

  abbrev pub second_patch :
      EtcdSnapshotRestore → Memory c.State → Reply EtcdSnapshotRestore × c.State
  second_patch base p = c.patch_restore_status base (status_object base p) (first_patch base p).1

  abbrev Saved : EtcdSnapshotRestore → Memory c.State → Type 0
  Saved base p = IsDone (first_patch base p).0 × IsDone (second_patch base p).0

  settled_iff :
      (x r : Result) (f g : Reply EtcdSnapshotRestore)
      → (aggregated c k (patch_error c k f (patch_error c k g nil)) x ≡ ok r)
        ↔ ((ok x ≡ ok r) × (IsDone f × IsDone g))
  settled_iff x r (done a) (done b) = (λ e. (e, (tt, tt)), λ h. h.0)
  settled_iff x r (done a) (fail b) = (λ e. cc, λ h. absurd h.1.1)
  settled_iff x r (fail a) (done b) = (λ e. cc, λ h. absurd h.1.0)
  settled_iff x r (fail a) (fail b) = (λ e. cc, λ h. absurd h.1.0)

  back_iff :
      (base : EtcdSnapshotRestore) (outcome : Outcome Result) (p : Memory c.State) (r : Result)
      → ((written_back c k base outcome p).0 ≡ ok r) ↔ ((outcome ≡ ok r) × Saved base p)
  unfolding patch_back
  back_iff base panic p r = (λ e. cc, λ h. absurd (cc h.0))
  back_iff base (ok x) p r = settled_iff x r (first_patch base p).0 (second_patch base p).0
  back_iff base (err x) p r = (λ e. cc, λ h. absurd (cc h.0))

  -- `Reconcile` of an object that was read and is not being deleted succeeds with a result exactly
  -- where `reconcileNormal` succeeds with this result and both patches of the restore object are
  -- done, of which the second one is given the status that `reconcileNormal` has left: no error is
  -- lost, and a new phase is not taken for saved when it is not.
  pub reconcile_object_iff :
      (base : EtcdSnapshotRestore) (s : c.State) (r : Result)
      → let (outcome, p) = reconcile_normal c k (record { obj = base; store = s }) in
        ((reconcile_object c k base s).0 ≡ ok r)
        ↔ ((outcome ≡ ok r) × (IsDone (first_patch base p).0 × IsDone (second_patch base p).0))
  unfolding reconcile_object
  reconcile_object_iff base s r =
      let (outcome, p) = reconcile_normal c k (record { obj = base; store = s }) in
      back_iff base outcome p r
