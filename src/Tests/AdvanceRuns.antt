-- ===== src/Tests/AdvanceRuns.antt =====
-- A whole `Reconcile` that enters the shutdown phase, and a run in the finished phase.
use turtles_etcd_restore.Base.{
  String, ◌≡◌, refl, ◌∙◌, inr, Bool, true, false, Option, none, some, arith, eq_iff, ◌&&◌,
}
use turtles_etcd_restore.Api.{EtcdSnapshotRestore}
use turtles_etcd_restore.Api.Phase
use turtles_etcd_restore.Objects.{Key, Cluster, Secret, key_of}
use turtles_etcd_restore.Go.Bytes.{ByteMap}
use turtles_etcd_restore.Instructions.Distinct.{kill_plan}
use turtles_etcd_restore.Go.Outcome.{ok, ◌>>=◌}
use turtles_etcd_restore.Restore.Phases.{Memory, no_requeue, with_phase}
use turtles_etcd_restore.Restore.Reconcile.{
  reconcile, reconcile_normal, reconcile_scope, set_paused, switch_phase, all_running,
}
use turtles_etcd_restore.Restore.Scope.{new_scope}
use turtles_etcd_restore.Restore.Pausing.{cluster_key, PauseLaws, paused_until_finished}
use turtles_etcd_restore.Restore.Reported.{IsReadable, stopped}
use turtles_etcd_restore.Restore.Advances.{reconcile_advances}
use turtles_etcd_restore.Tests.World.{World, memory, patch, same_key, same_key_refl}
use turtles_etcd_restore.Tests.RestoreRuns.{codec, nodes, backup, prod, halted, at_phase, reporting}
use turtles_etcd_restore.Tests.ProgressRuns.{halted-Settled}

abbrev paused_prod : Cluster
paused_prod = record prod { paused = true }

abbrev paused_world : World
paused_world = record halted.store { cluster = paused_prod }

abbrev at_shutdown : EtcdSnapshotRestore
at_shutdown = with_phase Phase.shutdown halted.obj

readable :
    (phase : String) (secrets : Key → Option (Option ByteMap))
    → IsReadable memory
        (at_phase phase secrets).obj
        prod
        nodes
        backup
        (at_phase phase secrets).store
readable phase secrets = record {
  names_cluster = ground (arith, eq_iff "prod" "");
  names_backup = ground (arith, eq_iff "snap" "");
  cluster_read = refl;
  machines_read = refl;
  backup_read = refl;
  running = (refl, (refl, tt));
}

reconcile_advances_example :
    reconcile memory codec (record { namespace = "ns"; name = "r" }) halted.store
    ≡ (ok no_requeue, record paused_world { saved = at_shutdown })
reconcile_advances_example =
    reconcile_advances memory codec (record { namespace = "ns"; name = "r" }) halted.obj halted.obj
      at_shutdown prod paused_prod nodes backup Phase.shutdown halted.store halted.store
      paused_world paused_world (record paused_world { saved = at_shutdown }) refl refl
      (readable Phase.started (λ key. reporting kill_plan)) refl
      (stopped (inr refl) refl (halted-Settled paused_prod)) refl refl

-- What the client in memory holds of the cluster with that name.
abbrev paused_in : Key → World → Bool
paused_in key w = same_key key (cluster_key w.cluster) && w.cluster.paused

patch-paused :
    (key : Key) (obj : Secret) (w : World) (o : Option (Option ByteMap))
    → paused_in key (patch obj w o).1 ≡ paused_in key w
patch-paused key obj w none = refl
patch-paused key obj w (some m) = refl

memory-PauseLaws : PauseLaws memory paused_in
memory-PauseLaws = record {
  patch_done = λ base paused w x e. (ground arith, rw (same_key_refl (cluster_key base)) refl);
  secrets = λ key b. record {
    get_config = λ key w h. h;
    get_secret = λ key w h. h;
    patch_secret = λ machine base obj w ours of (same, plan, others) h.
        patch-paused key obj w (w.secrets (key_of obj)) ∙ h;
  };
}

abbrev ended : Memory World
ended = at_phase Phase.finished (λ _. none)

ends : (reconcile_normal memory codec ended).0 ≡ ok no_requeue
unfolding reconcile_normal reconcile_scope set_paused switch_phase all_running new_scope ◌>>=◌
ends = refl

paused_until_finished_example :
    paused_in (cluster_key prod) (reconcile_normal memory codec ended).1.store ≡ false
paused_until_finished_example =
    paused_until_finished memory codec paused_in memory-PauseLaws ended prod nodes backup no_requeue
      (readable Phase.finished (λ _. none)) ends
