-- ===== src/Sync/Whole.antt =====
-- A synchronisation as a whole: `Reconcile` for a cluster that is not paused, ready and of RKE2.
use turtles_etcd_restore.Base.{◌≡◌, sym, true, false, some, List, In}
use mathlib.Core.Path.{subst}
use turtles_etcd_restore.Api.{EtcdMachineBackup}
use turtles_etcd_restore.Objects.{Key, Cluster}
use turtles_etcd_restore.Unstructured.{Fields}
use turtles_etcd_restore.Go.Outcome.{ok, done, ◌>>=◌}
use turtles_etcd_restore.Go.Rules.{
  Ensures, Ensures-pure, Ensures-call, Ensures-on_err, Ensures-bind,
}
use turtles_etcd_restore.Restore.Phases.{Result}
use turtles_etcd_restore.Sync.Client.{SyncClient}
use turtles_etcd_restore.Sync.Reconcile.{
  cluster_key, sync_cluster, sync_unpaused, sync_found, reconcile,
}
use turtles_etcd_restore.Sync.Laws.{Rely, Wanted, Held, backup_key}
use turtles_etcd_restore.Sync.Backups.{sync_files-Held}

module _ (c : SyncClient) (L : Rely c) (cluster : Cluster) (files : List Fields)
    (lists : (s : c.State) (x : List Fields)
      → (c.list_snapshot_files (cluster_key cluster) s).0 ≡ done x
      → x ≡ files) where
  sync_cluster-Held :
      (file : Fields) (backup : EtcdMachineBackup)
      → In file files
      → Wanted (L.machines cluster.namespace) cluster file backup
      → Ensures
          (λ _. Unit)
          (sync_cluster c cluster)
          (λ _ s. Held (L.backup_at s (backup_key backup)))
  unfolding sync_cluster
  sync_cluster-Held file backup i wanted =
      Ensures-bind {R = λ _ _. Unit} _ _ (record { at = λ _ _ _ _. tt })
        (λ _.
          Ensures-bind {R = λ _ _. Unit} _ _ (record { at = λ _ _ _ _. tt })
            (λ _.
              Ensures-bind {R = λ x _. x ≡ files} _ _
                (Ensures-on_err _ _ (Ensures-call _ (λ s _ x e. lists s x e)))
                (λ x.
                  Ensures-bind {R = λ _ s. Held (L.backup_at s (backup_key backup))} _ _
                    (record {
                      at = λ s same a e.
                          sync_files-Held c L cluster x file backup (subst (In file) (sym same) i)
                            wanted s e;
                    })
                    (λ _. Ensures-pure _ (λ s h. h)))))

  goes_on :
      (s : c.State)
      → cluster.paused ≡ false
      → cluster.control_plane_kind ≡ some "RKE2ControlPlane"
      → cluster.control_plane_ready ≡ true
      → sync_found c (done cluster) s ≡ sync_cluster c cluster s
  unfolding sync_found sync_unpaused ◌>>=◌
  goes_on s going rke2 ready = simp (going, rke2, ready)

  -- Let the answers of the API server be as the synchronisation relies on, and the snapshot files
  -- of the workload cluster stay the same. If `Reconcile` reads a cluster that is not paused, whose
  -- control plane is of RKE2 and ready, and succeeds, then afterwards a backup is held under the
  -- key of every backup that one of the snapshot files asks for.
  pub reconcile-Held :
      (key : Key) (file : Fields) (backup : EtcdMachineBackup) (s : c.State) (r : Result)
      → (c.get_cluster key s).0 ≡ done cluster
      → cluster.paused ≡ false
      → cluster.control_plane_kind ≡ some "RKE2ControlPlane"
      → cluster.control_plane_ready ≡ true
      → In file files
      → Wanted (L.machines cluster.namespace) cluster file backup
      → (reconcile c key s).0 ≡ ok r
      → Held (L.backup_at (reconcile c key s).1 (backup_key backup))
  unfolding reconcile
  reconcile-Held key file backup s r read going rke2 ready i wanted e =
      let t : c.State = (c.get_cluster key s).1 in
      rw (read, goes_on t going rke2 ready)
        ((sync_cluster-Held file backup i wanted).at t tt r
          (rw (read, goes_on t going rke2 ready) at e))
