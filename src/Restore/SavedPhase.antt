-- ===== src/Restore/SavedPhase.antt =====
-- What a whole `Reconcile` makes of the phase that the server has saved.
use turtles_etcd_restore.Base.{
  String, ◌≡◌, refl, sym, ◌∙◌, ◌⊎◌, inl, inr, Bool, true, false, if◌then◌else◌,
}
use turtles_etcd_restore.Api.{EtcdSnapshotRestore}
use turtles_etcd_restore.Objects.{Key}
use turtles_etcd_restore.Go.Outcome.{
  Outcome, ok, err, panic, Reply, done, fail, is_not_found, pure, api,
}
use turtles_etcd_restore.Client.{Client, Codec}
use turtles_etcd_restore.Restore.Phases.{Memory, Result, no_requeue}
use turtles_etcd_restore.Restore.Reconcile.{
  reconcile_normal, reconcile_delete, patch_back, patched, written_back, reconcile_object,
  reconcile_found, reconcile,
}
use turtles_etcd_restore.Restore.Frame.{ClusterFrame, cluster_of}
use turtles_etcd_restore.Restore.Normal.{normal-Frame}

-- What is relied on of the phase that the server has saved for the restore object of a key. Reads,
-- patches of other objects and patches that are not of the status do not change it. A patch of the
-- status either leaves it as it is, as where it is refused, or it was made from an object that has
-- the saved phase, which the optimistic lock sees to, and saves the phase that it is given; that it
-- was done need not be answered.
pub record PhaseLaws (c : Client) (key : Key) (saved_phase : c.State → String) : Type 0 where
  pub get_restore : (s : c.State) → saved_phase (c.get_restore key s).1 ≡ saved_phase s
  pub cluster :
      (restore : EtcdSnapshotRestore) (phase : String)
      → ClusterFrame c (cluster_of restore) (λ s. saved_phase s ≡ phase)
  pub patch_restore :
      (base obj : EtcdSnapshotRestore) (s : c.State)
      → saved_phase (c.patch_restore base obj s).1 ≡ saved_phase s
  pub patch_restore_status :
      (base obj : EtcdSnapshotRestore) (s : c.State)
      → (saved_phase (c.patch_restore_status base obj s).1 ≡ saved_phase s)
        ⊎ ((saved_phase s ≡ base.status.phase)
            × (saved_phase (c.patch_restore_status base obj s).1 ≡ obj.status.phase))

-- What `reconcileNormal` begins with in a run that has read this object.
abbrev pub begun_with : (c : Client) → Key → EtcdSnapshotRestore → c.State → Memory c.State
begun_with c key restore s = record { obj = restore; store = (c.get_restore key s).1 }

module _ (c : Client) (k : Codec) (key : Key) (saved_phase : c.State → String) where
  -- A run that starts with this object and state has saved the phase that `reconcileNormal` left.
  pub record Carried (restore : EtcdSnapshotRestore) (s t : c.State) : Type 0 where
    pub from : saved_phase s ≡ restore.status.phase
    pub to :
        saved_phase t
        ≡ (reconcile_normal c k (record { obj = restore; store = s })).1.obj.status.phase

  -- A run from `s` has saved the phase that `reconcileNormal` left of the object that it has read.
  pub record Saves (s : c.State) : Type 0 where
    pub restore : EtcdSnapshotRestore
    pub read : (c.get_restore key s).0 ≡ done restore
    pub from : saved_phase s ≡ restore.status.phase
    pub to :
        saved_phase (reconcile c k key s).1
        ≡ (reconcile_normal c k (begun_with c key restore s)).1.obj.status.phase

module _ (c : Client) (k : Codec) (key : Key) (saved_phase : c.State → String)
    (L : PhaseLaws c key saved_phase) where
  object_saves :
      (restore : EtcdSnapshotRestore) (s : c.State)
      → (saved_phase (reconcile_object c k restore s).1 ≡ saved_phase s)
        ⊎ Carried c k key saved_phase restore s (reconcile_object c k restore s).1
  unfolding reconcile_object patch_back
  object_saves restore s = go (reconcile_normal c k begun).0
    where
      begun : Memory c.State
      begun = record { obj = restore; store = s }

      left : Memory c.State
      left = (reconcile_normal c k begun).1

      kept : saved_phase left.store ≡ saved_phase s
      kept =
          normal-Frame c k (λ t. saved_phase t ≡ saved_phase s) begun
            (L.cluster restore (saved_phase s)) refl

      after : c.State
      after = (c.patch_restore restore left.obj left.store).1

      answered : Reply EtcdSnapshotRestore
      answered = (c.patch_restore restore left.obj left.store).0

      saved : EtcdSnapshotRestore
      saved = record (patched c k left.obj answered) { status = left.obj.status }

      end : c.State
      end = (c.patch_restore_status restore saved after).1

      second : (saved_phase end ≡ saved_phase s) ⊎ Carried c k key saved_phase restore s end
      second = elim (L.patch_restore_status restore saved after) [
        | inl same ↦ inl (same ∙ L.patch_restore restore left.obj left.store ∙ kept)
        | inr (from, to) ↦ inr (record {
          from = sym (L.patch_restore restore left.obj left.store ∙ kept) ∙ from;
          to = to;
        })
      ]

      go :
          (r : Outcome Result)
          → (saved_phase (written_back c k restore r left).1 ≡ saved_phase s)
            ⊎ Carried c k key saved_phase restore s (written_back c k restore r left).1
      go panic = inl kept
      go (ok result) = second
      go (err e) = second

  found_saves :
      (found : Reply EtcdSnapshotRestore) (s : c.State)
      → (saved_phase (reconcile_found c k found s).1 ≡ saved_phase s)
        ⊎ ((restore : EtcdSnapshotRestore) × (found ≡ done restore)
            × Carried c k key saved_phase restore s (reconcile_found c k found s).1)
  unfolding reconcile_found reconcile_delete pure
  found_saves (fail e) s = inl (missing (is_not_found e))
    where
      missing :
          (b : Bool)
          → saved_phase (if b then pure {S = c.State} no_requeue s else (err (api e), s)).1
            ≡ saved_phase s
      missing true = refl
      missing false = refl
  found_saves (done restore) s = read restore.deleting
    where
      run : Bool → Outcome Result × c.State
      run b = if b then reconcile_delete c k restore s else reconcile_object c k restore s

      read :
          (b : Bool)
          → (saved_phase (run b).1 ≡ saved_phase s)
            ⊎ ((x : EtcdSnapshotRestore) × (done restore ≡ done x)
                × Carried c k key saved_phase x s (run b).1)
      read true = inl refl
      read false = elim (object_saves restore s) [
        | inl same ↦ inl same
        | inr carried ↦ inr (restore, refl, carried)
      ]

  -- A `Reconcile` leaves the saved phase as it is, or saves what `reconcileNormal` has left.
  pub reconcile-Saves :
      (s : c.State)
      → (saved_phase (reconcile c k key s).1 ≡ saved_phase s) ⊎ Saves c k key saved_phase s
  unfolding reconcile
  reconcile-Saves s = elim (found_saves (c.get_restore key s).0 (c.get_restore key s).1) [
    | inl same ↦ inl (same ∙ L.get_restore s)
    | inr (restore, read, carried) ↦ inr (record {
      restore = restore;
      read = read;
      from = sym (L.get_restore s) ∙ carried.from;
      to = carried.to;
    })
  ]
