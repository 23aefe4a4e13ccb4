-- ===== src/Restore/Reconcile.antt =====
-- `Reconcile`, `reconcileNormal` and `reconcileDelete`.
use turtles_etcd_restore.Base.{String, List, [], ◌∷◌, Bool, true, false, ◌==◌, if◌then◌else◌}
use turtles_etcd_restore.Api.{EtcdSnapshotRestore}
use turtles_etcd_restore.Api.Phase
use turtles_etcd_restore.Objects.{Key, Machine, Cluster}
use turtles_etcd_restore.Go.Outcome.{
  M, Outcome, ok, err, panic, Reply, done, fail, Errors, nil, cons, api, wrap, aggregate,
  is_not_found, pure, call, on_err, ◌>>=◌, ◌>>◌,
}
use turtles_etcd_restore.Client.{Client, Codec}
use turtles_etcd_restore.Restore.Scope.{Scope, new_scope}
use turtles_etcd_restore.Restore.Phases.{
  Result, no_requeue, requeue_in_30s, Memory, on_store, set_phase, stop_rke2_on_all_machines,
  restore_snapshot_on_init_machine, start_rke2_on_all_machines,
}

-- `clusterv1.MachinePhaseRunning`
abbrev pub machine_phase_running : String
machine_phase_running = "Running"

-- The loop of `reconcileNormal` over the machines: none is in another phase.
unfoldable pub all_running : List Machine → Bool
all_running [] = true
all_running (machine ∷ rest) =
    if machine.phase == machine_phase_running then all_running rest else false

-- `if etcdSnapshotRestore.Status.Phase == ""`
abbrev pub begin : {S : Type 0} → M (Memory S) Unit
begin p = if p.obj.status.phase == "" then set_phase Phase.started p else (ok tt, p)

module _ (c : Client) (k : Codec) where
  -- The patch of `cluster.Spec.Paused`; the cluster that the pointer holds afterwards is returned.
  unfoldable pub set_paused : Bool → Cluster → M (Memory c.State) Cluster
  set_paused paused cluster = on_store (
      on_err "failed to pause cluster"
        (call (c.patch_cluster cluster (record cluster { paused = paused }))))

  -- The `switch` of `reconcileNormal`.
  unfoldable pub switch_phase : String → Scope → M (Memory c.State) Result
  unfolding set_paused
  switch_phase phase scope =
      if phase == Phase.started
      then stop_rke2_on_all_machines c k scope
      else if phase == Phase.shutdown
      then restore_snapshot_on_init_machine c k scope
      else if phase == Phase.restore
      then start_rke2_on_all_machines c k scope
      else if phase == Phase.finished
      then (do set_paused false scope.cluster; pure no_requeue)
      else pure no_requeue

  -- `reconcileNormal` from the loop over the machines on.
  unfoldable pub reconcile_scope : Scope → M (Memory c.State) Result
  unfolding set_paused switch_phase all_running
  reconcile_scope scope =
      if all_running scope.machines
      then (do
        cluster ← set_paused true scope.cluster
        λ p. switch_phase p.obj.status.phase (record scope { cluster = cluster }) p)
      else pure requeue_in_30s

  -- `reconcileNormal`
  unfoldable pub reconcile_normal : M (Memory c.State) Result
  unfolding reconcile_scope
  reconcile_normal = do begin; scope ← λ p. on_store (new_scope c p.obj) p; reconcile_scope scope

  -- `reconcileDelete`
  unfoldable pub reconcile_delete : EtcdSnapshotRestore → M c.State Result
  reconcile_delete restore = pure no_requeue

  abbrev pub error_of : Outcome Result → Errors → Errors
  error_of (err e) rest = cons (wrap "error reconciling etcd snapshot restore" e) rest
  error_of _ rest = rest

  abbrev pub patch_error : {A : Type 0} → Reply A → Errors → Errors
  patch_error (done _) rest = rest
  patch_error (fail e) rest = cons (wrap "failed to patch etcd snapshot restore" (api e)) rest

  abbrev pub result_of : Outcome Result → Result
  result_of (ok result) = result
  result_of _ = no_requeue

  -- The object that the pointer holds after a patch: the answer, if there is one.
  abbrev pub patched : {A : Type 0} → A → Reply A → A
  patched obj (done obj') = obj'
  patched obj (fail _) = obj

  abbrev pub aggregated : Errors → Result → Outcome Result
  aggregated nil result = ok result
  aggregated (cons e rest) result = err (aggregate (cons e rest))

  -- `Reconcile` after `reconcileNormal` has returned: both patches are made, also after an error.
  unfoldable pub patch_back : EtcdSnapshotRestore → Outcome Result → M (Memory c.State) Result
  patch_back base outcome p =
      let (first, s₁) = c.patch_restore base p.obj p.store in
      let obj = record (patched p.obj first) { status = p.obj.status } in
      let (second, s₂) = c.patch_restore_status base obj s₁ in
      (
        aggregated (error_of outcome (patch_error first (patch_error second nil)))
            (result_of outcome),
        record { obj = patched obj second; store = s₂ },
      )

  -- The end of `Reconcile` from what `reconcileNormal` returned. A panic is not recovered.
  abbrev pub written_back :
      EtcdSnapshotRestore → Outcome Result → Memory c.State → Outcome Result × c.State
  written_back base panic p = (panic, p.store)
  written_back base (ok result) p = let (r, q) = patch_back base (ok result) p in (r, q.store)
  written_back base (err e) p = let (r, q) = patch_back base (err e) p in (r, q.store)

  -- `Reconcile` for an object that was read and is not being deleted.
  unfoldable pub reconcile_object : EtcdSnapshotRestore → M c.State Result
  unfolding patch_back
  reconcile_object restore s =
      let (outcome, p) = reconcile_normal (record { obj = restore; store = s }) in
      written_back restore outcome p

  -- What `Reconcile` does with the answer of its first `Get`.
  unfoldable pub reconcile_found : Reply EtcdSnapshotRestore → M c.State Result
  unfolding reconcile_object reconcile_delete
  reconcile_found (fail e) s = if is_not_found e then pure no_requeue s else (err (api e), s)
  reconcile_found (done restore) s =
      if restore.deleting then reconcile_delete restore s else reconcile_object restore s

  -- `Reconcile`
  unfoldable pub reconcile : Key → M c.State Result
  unfolding reconcile_found
  reconcile key s = let (found, s') = c.get_restore key s in reconcile_found found s'
