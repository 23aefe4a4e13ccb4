-- ===== src/Tests/WriteRuns.antt =====
-- The frame of the restore controller, for the plans that the secrets of the memory hold.
use turtles_etcd_restore.Base.{
  ◌≡◌, ◌⊎◌, inr, Bool, true, false, Option, none, some, [], if◌then◌else◌,
}
use mathlib.Core.Path.{subst}
use turtles_etcd_restore.Objects.{Key, Secret, key_of}
use turtles_etcd_restore.Go.Bytes.{ByteMap, entry}
use turtles_etcd_restore.Go.Rules.{Keeps}
use turtles_etcd_restore.Restore.Frame.{Frame, RestorePlan}
use turtles_etcd_restore.Restore.Reconcile.{reconcile}
use turtles_etcd_restore.Restore.Writes.{reconcile-Frame}
use turtles_etcd_restore.Tests.World.{World, memory, same_key, put_secret, patch}
use turtles_etcd_restore.Tests.RestoreRuns.{codec}

abbrev Known : Option ByteMap → Type 0
Known m = (entry m "plan" ≡ []) ⊎ RestorePlan (entry m "plan")

-- Every secret has no plan, or one of a restore.
abbrev OnlyPlans : World → Type 0
OnlyPlans w = (key : Key) (m : Option ByteMap) → w.secrets key ≡ some m → Known m

put-OnlyPlans :
    (obj : Secret) (w : World) → Known obj.content → OnlyPlans w → OnlyPlans (put_secret obj w)
put-OnlyPlans obj w known h key m = go (same_key (key_of obj) key)
  where
    go : (b : Bool) → (if b then some obj.content else w.secrets key) ≡ some m → Known m
    go true e = subst Known (cc) known
    go false e = h key m e

patch-OnlyPlans :
    (obj : Secret) (w : World) (o : Option (Option ByteMap))
    → Known obj.content
    → OnlyPlans w
    → OnlyPlans (patch obj w o).1
patch-OnlyPlans obj w none known h = h
patch-OnlyPlans obj w (some m) known h = put-OnlyPlans obj w known h

memory-Frame : Frame memory (record { namespace = "ns"; name = "r" }) OnlyPlans
memory-Frame = record {
  get_restore = λ w h. h;
  cluster = λ restore named. record {
    get_cluster = λ key w h. h;
    get_backup = λ key w h. h;
    list_machines = λ namespace name w h. h;
    patch_cluster = λ base paused w named h. h;
    secrets = record {
      get_config = λ key w h. h;
      get_secret = λ key w h. h;
      patch_secret = λ machine base obj w ours of (same, plan, others) h.
          patch-OnlyPlans obj w (w.secrets (key_of obj)) (inr plan) h;
    };
  };
  patch_restore = λ base phase w named h. h;
  patch_restore_status = λ base obj phase w named answered h. h;
}

reconcile-Frame_example :
    Keeps OnlyPlans (reconcile memory codec (record { namespace = "ns"; name = "r" }))
reconcile-Frame_example =
    reconcile-Frame memory codec (record { namespace = "ns"; name = "r" }) memory-Frame
