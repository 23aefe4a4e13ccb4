-- ===== src/Restore/Advances.antt =====
-- When the agents have reported the plans of a phase, a run of `reconcileNormal` enters the next.
use turtles_etcd_restore.Base.{
  String, ◌≡◌, ◌≢◌, refl, ◌∙◌, true, false, arith, List, [], ◌∷◌, All, inl, inr, ◌==◌, eq_iff,
}
use turtles_etcd_restore.Api.{EtcdSnapshotRestore, EtcdMachineBackup}
use turtles_etcd_restore.Api.Phase
use turtles_etcd_restore.Objects.{Key, Machine, Cluster}
use turtles_etcd_restore.Go.Outcome.{ok, done, ◌>>=◌}
use turtles_etcd_restore.Client.{Client, Codec}
use turtles_etcd_restore.Restore.Scope.{new_scope}
use turtles_etcd_restore.Restore.Phases.{Memory, no_requeue, with_phase}
use turtles_etcd_restore.Restore.Reconcile.{
  begin, machine_phase_running, all_running, set_paused, switch_phase, reconcile_scope,
  reconcile_normal, reconcile, reconcile_found, reconcile_object, patch_back,
}
use turtles_etcd_restore.Restore.Reported.{
  init_of, scope_of, IsReadable, Reported, stopped, restored, started,
}
use turtles_etcd_restore.Restore.Missing.{other_name}
use turtles_etcd_restore.Restore.Progress.{shutdown_reached, restore_reached}
use turtles_etcd_restore.Restore.Finish.{finished_reached}

pub all_running-All :
    (machines : List Machine)
    → All (λ m. m.phase ≡ machine_phase_running) machines
    → all_running machines ≡ true
unfolding all_running
all_running-All [] h = refl
all_running-All (m ∷ ms) (e, h) = rw (e, all_running-All ms h) refl

module _ (c : Client) (k : Codec) where
  pub new_scope-Readable :
      (restore : EtcdSnapshotRestore) (cluster : Cluster) (machines : List Machine)
      (backup : EtcdMachineBackup) (s : c.State)
      → IsReadable c restore cluster machines backup s
      → new_scope c restore s ≡ (ok (scope_of cluster machines backup), s)
  unfolding new_scope ◌>>=◌
  new_scope-Readable restore cluster machines backup s h =
      rw
        (
          other_name restore.spec.cluster_name "" h.names_cluster,
          other_name restore.spec.etcd_machine_backup_name "" h.names_backup,
          h.cluster_read,
          h.machines_read,
          h.backup_read,
        )
        refl

  -- A run comes to the work on its scope.
  pub reaches_scope :
      (p q : Memory c.State) (cluster : Cluster) (machines : List Machine)
      (backup : EtcdMachineBackup)
      → begin p ≡ (ok tt, q)
      → IsReadable c q.obj cluster machines backup q.store
      → reconcile_normal c k p ≡ reconcile_scope c k (scope_of cluster machines backup) q
  unfolding reconcile_normal ◌>>=◌
  reaches_scope p q cluster machines backup begun h =
      rw (begun, new_scope-Readable q.obj cluster machines backup q.store h) refl

  reaches_switch :
      (p q : Memory c.State) (cluster cluster' : Cluster) (machines : List Machine)
      (backup : EtcdMachineBackup) (s : c.State)
      → begin p ≡ (ok tt, q)
      → IsReadable c q.obj cluster machines backup q.store
      → c.patch_cluster cluster (record cluster { paused = true }) q.store ≡ (done cluster', s)
      → reconcile_normal c k p
        ≡ switch_phase c k q.obj.status.phase
            (scope_of cluster' machines backup)
            (record q { store = s })
  unfolding reconcile_scope set_paused ◌>>=◌
  reaches_switch p q cluster cluster' machines backup s begun h patched =
      rw
        (
          reaches_scope p q cluster machines backup begun h,
          all_running-All machines h.running,
          patched,
        )
        refl

  switch-Reported :
      (from to : String) (q : Memory c.State) (cluster : Cluster) (machines : List Machine)
      (backup : EtcdMachineBackup)
      → from ≢ ""
      → Reported c k q.store machines backup from to
      → switch_phase c k from (scope_of cluster machines backup) q
        ≡ (ok no_requeue, record q { obj = with_phase to q.obj })
  unfolding switch_phase
  switch-Reported from to q cluster machines backup ne (stopped (inl e) to_is h) = absurd (ne e)
  switch-Reported from to q cluster machines backup ne (stopped (inr e) to_is h) =
      rw (e, to_is) (shutdown_reached c k (scope_of cluster machines backup) q h)
  switch-Reported from to q cluster machines backup ne (restored e to_is located h) =
      rw (e, to_is)
        (restore_reached c k (scope_of cluster machines backup) (init_of machines backup) q refl
          located h)
  switch-Reported from to q cluster machines backup ne (started e to_is addressed h hs) =
      rw (e, to_is)
        (finished_reached c k (scope_of cluster machines backup) (init_of machines backup) q refl
          addressed h hs)

  pub begun_not_empty : (p : Memory c.State) → p.obj.status.phase ≢ "" → begin p ≡ (ok tt, p)
  begun_not_empty p ne = rw (other_name p.obj.status.phase "" ne) refl

  pub begun_empty :
      (p : Memory c.State)
      → p.obj.status.phase ≡ ""
      → begin p ≡ (ok tt, record p { obj = with_phase Phase.started p.obj })
  begun_empty p e = rw e refl

  pub IsReadable-begun :
      (restore : EtcdSnapshotRestore) (cluster : Cluster) (machines : List Machine)
      (backup : EtcdMachineBackup) (s : c.State)
      → IsReadable c restore cluster machines backup s
      → IsReadable c (with_phase Phase.started restore) cluster machines backup s
  IsReadable-begun restore cluster machines backup s h = record {
    names_cluster = h.names_cluster;
    names_backup = h.names_backup;
    cluster_read = h.cluster_read;
    machines_read = h.machines_read;
    backup_read = h.backup_read;
    running = h.running;
  }

  -- From a phase that is not empty.
  advances_later :
      (p : Memory c.State) (cluster cluster' : Cluster) (machines : List Machine)
      (backup : EtcdMachineBackup) (s : c.State) (to : String)
      → p.obj.status.phase ≢ ""
      → IsReadable c p.obj cluster machines backup p.store
      → c.patch_cluster cluster (record cluster { paused = true }) p.store ≡ (done cluster', s)
      → Reported c k s machines backup p.obj.status.phase to
      → reconcile_normal c k p ≡ (ok no_requeue, record { obj = with_phase to p.obj; store = s })
  advances_later p cluster cluster' machines backup s to ne h patched reported =
      reaches_switch p p cluster cluster' machines backup s (begun_not_empty p ne) h patched
      ∙ switch-Reported p.obj.status.phase to (record p { store = s }) cluster' machines backup ne
          reported

  not_empty : (phase from : String) → phase ≡ from → (from == "") ≡ false → phase ≢ ""
  not_empty phase from e other is = ground (arith, eq_iff from "")

  pub reconcile_normal_advances :
      (p : Memory c.State) (cluster cluster' : Cluster) (machines : List Machine)
      (backup : EtcdMachineBackup) (s : c.State) (to : String)
      → IsReadable c p.obj cluster machines backup p.store
      → c.patch_cluster cluster (record cluster { paused = true }) p.store ≡ (done cluster', s)
      → Reported c k s machines backup p.obj.status.phase to
      → reconcile_normal c k p ≡ (ok no_requeue, record { obj = with_phase to p.obj; store = s })
  reconcile_normal_advances p cluster cluster' machines backup s to h patched
        (stopped (inl e) to_is halted) =
      let q : Memory c.State = record p { obj = with_phase Phase.started p.obj } in
      reaches_switch p q cluster cluster' machines backup s (begun_empty p e)
        (IsReadable-begun p.obj cluster machines backup p.store h) patched
      ∙ switch-Reported Phase.started to (record q { store = s }) cluster' machines backup
          (not_empty Phase.started Phase.started refl refl) (stopped (inr refl) to_is halted)
  reconcile_normal_advances p cluster cluster' machines backup s to h patched
        (stopped (inr e) to_is halted) =
      advances_later p cluster cluster' machines backup s to
        (not_empty p.obj.status.phase Phase.started e refl) h patched (stopped (inr e) to_is halted)
  reconcile_normal_advances p cluster cluster' machines backup s to h patched
        (restored e to_is located settled) =
      advances_later p cluster cluster' machines backup s to
        (not_empty p.obj.status.phase Phase.shutdown e refl) h patched
        (restored e to_is located settled)
  reconcile_normal_advances p cluster cluster' machines backup s to h patched
        (started e to_is addressed settled joined) =
      advances_later p cluster cluster' machines backup s to
        (not_empty p.obj.status.phase Phase.restore e refl) h patched
        (started e to_is addressed settled joined)

  -- Let `Reconcile` read a restore that is not being deleted, and let the reads that build its
  -- scope succeed and find all machines running. If the cluster can be paused, the agents have then
  -- reported all that the step from the restore's phase to the next one waits for, and the two
  -- patches of the restore object are done, the second with the next phase, then `Reconcile`
  -- succeeds, asks for no further run, and changes nothing but by pausing the cluster and by these
  -- two patches: every step from the empty phase to the finished one is made as soon as its plans
  -- are reported.
  pub reconcile_advances :
      (key : Key) (restore first second : EtcdSnapshotRestore) (cluster cluster' : Cluster)
      (machines : List Machine) (backup : EtcdMachineBackup) (to : String)
      (s₀ s₁ s₂ s₃ s₄ : c.State)
      → c.get_restore key s₀ ≡ (done restore, s₁)
      → restore.deleting ≡ false
      → IsReadable c restore cluster machines backup s₁
      → c.patch_cluster cluster (record cluster { paused = true }) s₁ ≡ (done cluster', s₂)
      → Reported c k s₂ machines backup restore.status.phase to
      → c.patch_restore restore (with_phase to restore) s₂ ≡ (done first, s₃)
      → c.patch_restore_status restore (with_phase to first) s₃ ≡ (done second, s₄)
      → reconcile c k key s₀ ≡ (ok no_requeue, s₄)
  unfolding reconcile reconcile_found reconcile_object patch_back
  reconcile_advances key restore first second cluster cluster' machines backup to s₀ s₁ s₂ s₃ s₄
        found kept readable paused reported saved saved_status =
      rw
        (
          found,
          reconcile_normal_advances (record { obj = restore; store = s₁ }) cluster cluster' machines
              backup s₂ to readable paused reported,
          saved,
          saved_status,
          kept,
        )
        refl
