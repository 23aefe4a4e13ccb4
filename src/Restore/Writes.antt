-- ===== src/Restore/Writes.antt =====
-- The reconciliation writes nothing but what the frame allows.
use turtles_etcd_restore.Base.{◌≡◌, refl, sym, ap, ◌∙◌, Bool, true, false, if◌then◌else◌}
use mathlib.Core.Path.{subst}
use turtles_etcd_restore.Api.{EtcdSnapshotRestore}
use turtles_etcd_restore.Objects.{Key}
use turtles_etcd_restore.Go.Outcome.{
  Outcome, ok, err, panic, Reply, done, fail, is_not_found, api, pure,
}
use turtles_etcd_restore.Go.Rules.{Keeps, Keeps-pure}
use turtles_etcd_restore.Client.{Client, Codec}
use turtles_etcd_restore.Restore.Phases.{Memory, Result, no_requeue, with_phase}
use turtles_etcd_restore.Restore.Reconcile.{
  reconcile_normal, reconcile_delete, written_back, patched, patch_back, reconcile_object,
  reconcile_found, reconcile,
}
use turtles_etcd_restore.Restore.Frame.{Frame, NamedRestore, unanswered, answer}
use turtles_etcd_restore.Restore.Normal.{normal-Frame}
use turtles_etcd_restore.Restore.Order.{reconcile_normal_moves}

module _ (c : Client) (k : Codec) (key : Key) {P : c.State → Type 0} (F : Frame c key P) where
  -- The first patch, of an object that is what was read but for its phase.
  first-Frame :
      (base obj : EtcdSnapshotRestore) (s : c.State)
      → NamedRestore c key base
      → obj ≡ with_phase obj.status.phase base
      → P s
      → P (c.patch_restore base obj s).1
  first-Frame base obj s named same h =
      subst (λ x. P (c.patch_restore base x s).1) (sym same)
        (F.patch_restore base obj.status.phase s named h)

  -- The second patch, of what the pointer holds by then.
  second-Frame :
      (base obj : EtcdSnapshotRestore) (t : c.State) (r : Reply EtcdSnapshotRestore) (s : c.State)
      → NamedRestore c key base
      → obj ≡ with_phase obj.status.phase base
      → (c.patch_restore base obj t).0 ≡ r
      → P s
      → P (c.patch_restore_status base (record (patched c k obj r) { status = obj.status }) s).1
  second-Frame base obj t (done x) s named same e h =
      F.patch_restore_status base x obj.status.phase s named
        (answer obj.status.phase x t (ap (λ y. (c.patch_restore base y t).0) (sym same) ∙ e)) h
  second-Frame base obj t (fail x) s named same e h =
      subst (λ y. P (c.patch_restore_status base y s).1) (sym same)
        (F.patch_restore_status base base obj.status.phase s named unanswered h)

  patch_back-Frame :
      (base : EtcdSnapshotRestore) (r : Outcome Result) (p : Memory c.State)
      → NamedRestore c key base
      → p.obj ≡ with_phase p.obj.status.phase base
      → P p.store
      → P (patch_back c k base r p).1.store
  unfolding patch_back
  patch_back-Frame base r p named same h =
      second-Frame base p.obj p.store (c.patch_restore base p.obj p.store).0 _ named same refl
        (first-Frame base p.obj p.store named same h)

  written_back-Frame :
      (base : EtcdSnapshotRestore) (r : Outcome Result) (p : Memory c.State)
      → NamedRestore c key base
      → p.obj ≡ with_phase p.obj.status.phase base
      → P p.store
      → P (written_back c k base r p).1
  written_back-Frame base panic p named same h = h
  written_back-Frame base (ok result) p named same h =
      patch_back-Frame base (ok result) p named same h
  written_back-Frame base (err e) p named same h = patch_back-Frame base (err e) p named same h

  reconcile_object-Frame :
      (restore : EtcdSnapshotRestore)
      → NamedRestore c key restore
      → Keeps P (reconcile_object c k restore)
  unfolding reconcile_object
  reconcile_object-Frame restore named = record {
    at = λ s h.
        let begun : Memory c.State = record { obj = restore; store = s } in
        written_back-Frame restore (reconcile_normal c k begun).0 (reconcile_normal c k begun).1
          named (reconcile_normal_moves c k begun).0
          (normal-Frame c k P begun (F.cluster restore named) h);
  }

  reconcile_found-Frame :
      (found : Reply EtcdSnapshotRestore)
      → ((restore : EtcdSnapshotRestore) → found ≡ done restore → NamedRestore c key restore)
      → Keeps P (reconcile_found c k found)
  unfolding reconcile_found reconcile_delete
  reconcile_found-Frame (fail e) named = failed_get (is_not_found e)
    where
      failed_get : (b : Bool) → Keeps P (λ s. if b then pure no_requeue s else (err (api e), s))
      failed_get true = Keeps-pure _
      failed_get false = record { at = λ s h. h }
  reconcile_found-Frame (done restore) named = read restore.deleting
    where
      read :
          (b : Bool)
          → Keeps P
              (λ s. if b then reconcile_delete c k restore s else reconcile_object c k restore s)
      read true = Keeps-pure _
      read false = reconcile_object-Frame restore (named restore refl)

  -- A predicate of the state behind the client is kept by `Reconcile` for a key, at every outcome,
  -- errors and panics included, if it is kept by all the reads and by these writes: the patches of
  -- the restore object that the server answers for the key, in nothing but its phase; the patches
  -- of nothing but `Spec.Paused` of the cluster that this object names; and the patches of the plan
  -- secrets of machines that the server lists for this cluster, in nothing but the plan, to one of
  -- the four plans of a restore. So it writes nothing else.
  pub reconcile-Frame : Keeps P (reconcile c k key)
  unfolding reconcile
  reconcile-Frame = record {
    at = λ s h.
        (reconcile_found-Frame (c.get_restore key s).0 (λ restore e. (s, e))).at
          (c.get_restore key s).1 (F.get_restore s h);
  }
