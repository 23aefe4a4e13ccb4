-- ===== src/Sync/Reconcile.antt =====
-- `EtcdSnapshotSyncReconciler.Reconcile`, and the map function of its watch.
use turtles_etcd_restore.Base.{◌*◌, String, true, false, List, [], ◌∷◌, ◌==◌, ◌&&◌, if◌then◌else◌}
use turtles_etcd_restore.Api.{EtcdMachineBackup}
use turtles_etcd_restore.Objects.{Key, Cluster}
use turtles_etcd_restore.Unstructured.{Fields}
use turtles_etcd_restore.Go.Outcome.{
  M, Outcome, ok, err, panic, Reply, done, fail, api, wrap, is_not_found, is_already_exists, pure,
  raise, lift, call, on_err, wrapped, deref, ◌>>=◌, ◌>>◌,
}
use turtles_etcd_restore.Restore.Phases.{Result, no_requeue}
use turtles_etcd_restore.Sync.Client.{SyncClient}
use turtles_etcd_restore.Sync.Extract.{SnapshotFields, extract_fields, find_machine_for_backup}

-- `ctrl.Result{Requeue: true}`
abbrev pub requeue_now : Result
requeue_now = record { requeue = true; requeue_after = 0 }

-- `ctrl.Result{RequeueAfter: 3 * time.Minute}`
abbrev pub requeue_in_3m : Result
requeue_in_3m = record { requeue = false; requeue_after = 3 * (60 * 1_000_000_000) }

-- `capiutil.ObjectKey(cluster)`
abbrev pub cluster_key : Cluster → Key
cluster_key cluster = record { namespace = cluster.namespace; name = cluster.name }

-- The object that `Reconcile` creates for a snapshot.
unfoldable pub backup_for : Cluster → SnapshotFields → String → EtcdMachineBackup
backup_for cluster snapshot machine_name = record {
  name = snapshot.snapshot_name;
  namespace = cluster.namespace;
  deleting = false;
  spec = record {
    cluster_name = cluster.name;
    machine_name = machine_name;
    location = snapshot.location;
    manual = false;
  };
}

-- `schema.GroupVersionKind`
pub record GroupVersionKind : Type 0 where
  pub group : String
  pub kind : String
  pub version : String

abbrev pub snapshot_file_kind : GroupVersionKind
snapshot_file_kind = record { group = "k3s.cattle.io"; kind = "ETCDSnapshotFile"; version = "v1" }

-- The function that `etcdSnapshotFile` returns.
unfoldable pub requests_for : Cluster → GroupVersionKind → Outcome (List Key)
requests_for cluster gvk =
    if gvk.group == snapshot_file_kind.group
      && gvk.kind == snapshot_file_kind.kind
      && gvk.version == snapshot_file_kind.version
    then ok (cluster_key cluster ∷ [])
    else panic

module _ (c : SyncClient) where
  -- What the answer of `Create` makes of an iteration.
  abbrev pub created : Reply (Unit {0}) → Outcome (Unit {0})
  created (done _) = ok tt
  created (fail e) =
      if is_already_exists e then ok tt else err (wrap "failed to create EtcdMachineBackup" (api e))

  -- The last steps of an iteration, for a machine name that is not empty.
  unfoldable pub create_backup_for : Cluster → SnapshotFields → String → M c.State Unit
  unfolding backup_for
  create_backup_for cluster snapshot machine_name s =
      let (answer, s') = c.create_backup (backup_for cluster snapshot machine_name) s in
      (created answer, s')

  -- An iteration after the fields are extracted.
  unfoldable pub sync_snapshot : Cluster → SnapshotFields → M c.State Unit
  unfolding create_backup_for
  sync_snapshot cluster snapshot =
      if snapshot.ready_to_use
      then (do
        machine_name ←
            on_err "failed to find machine for backup"
              (find_machine_for_backup c cluster snapshot.node_name)
        if machine_name == "" then pure tt else create_backup_for cluster snapshot machine_name)
      else pure tt

  -- The loop over the snapshot files.
  unfoldable pub sync_files : Cluster → List Fields → M c.State Unit
  unfolding sync_snapshot
  sync_files cluster [] = pure tt
  sync_files cluster (file ∷ rest) = do
    snapshot ←
        lift (wrapped "failed to extract fields from etcd snapshot file" (extract_fields file))
    sync_snapshot cluster snapshot
    sync_files cluster rest

  -- `Reconcile` from the watch on.
  unfoldable pub sync_cluster : Cluster → M c.State Result
  unfolding sync_files
  sync_cluster cluster = do
    on_err "failed to start watch for nodes" (call (c.watch (cluster_key cluster)))
    call (c.get_client (cluster_key cluster))
    files ←
        on_err "failed to list etcd snapshot files"
          (call (c.list_snapshot_files (cluster_key cluster)))
    sync_files cluster files
    pure no_requeue

  -- `Reconcile` for a cluster that was read and is not paused.
  unfoldable pub sync_unpaused : Cluster → M c.State Result
  unfolding sync_cluster
  sync_unpaused cluster = do
    kind ← lift (deref cluster.control_plane_kind)
    if kind == "RKE2ControlPlane"
        then (if cluster.control_plane_ready then sync_cluster cluster else pure requeue_in_3m)
        else pure requeue_in_3m

  -- What `Reconcile` does with the answer of its first `Get`. An error is returned together with a
  -- request to requeue, which the framework does not read beside an error.
  unfoldable pub sync_found : Reply Cluster → M c.State Result
  unfolding sync_unpaused
  sync_found (fail e) = if is_not_found e then pure requeue_now else raise (api e)
  sync_found (done cluster) = if cluster.paused then pure no_requeue else sync_unpaused cluster

  -- `Reconcile`
  unfoldable pub reconcile : Key → M c.State Result
  unfolding sync_found
  reconcile key s = let (found, s') = c.get_cluster key s in sync_found found s'
