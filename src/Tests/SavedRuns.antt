-- ===== src/Tests/SavedRuns.antt =====
-- What is saved of the restore object in the memory, from the end of a restore.
use turtles_etcd_restore.Base.{◌≡◌, ◌↔◌}
use turtles_etcd_restore.Go.Outcome.{Outcome, ok}
use turtles_etcd_restore.Restore.Phases.{Memory, Result, no_requeue}
use turtles_etcd_restore.Restore.Reconcile.{reconcile_normal, reconcile_object}
use turtles_etcd_restore.Restore.Saved.{IsDone, first_patch, second_patch, reconcile_object_iff}
use turtles_etcd_restore.Tests.World.{World, memory}
use turtles_etcd_restore.Tests.RestoreRuns.{codec, halted}

-- `reconcileNormal` on the object and the store.
abbrev normal : Outcome Result × Memory World
normal = reconcile_normal memory codec (record { obj = halted.obj; store = halted.store })

reconcile_object_iff_example :
    ((reconcile_object memory codec halted.obj halted.store).0 ≡ ok no_requeue) ↔ (
      (normal.0 ≡ ok no_requeue)
      × (IsDone (first_patch memory codec halted.obj normal.1).0
          × IsDone (second_patch memory codec halted.obj normal.1).0))
reconcile_object_iff_example = reconcile_object_iff memory codec halted.obj halted.store no_requeue
