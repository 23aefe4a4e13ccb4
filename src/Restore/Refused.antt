-- ===== src/Restore/Refused.antt =====
-- What a reconciliation does when the cluster cannot be paused.
use turtles_etcd_restore.Base.{String, Bool, false, ◌≡◌, true, ◌==◌, if◌then◌else◌}
use turtles_etcd_restore.Api.Phase
use turtles_etcd_restore.Api.{EtcdSnapshotRestore}
use turtles_etcd_restore.Objects.{Key, Cluster}
use turtles_etcd_restore.Go.Outcome.{M, ok, fail, ApiError, ◌>>=◌}
use turtles_etcd_restore.Go.Rules.{
  wrapped-eq_ok, answered-eq_ok, Keeps, Keeps-pure, Keeps-raise, Keeps-call, Keeps-on_err,
  Keeps-bind, Keeps-if, Ensures, Leaves-bind,
}
use turtles_etcd_restore.Client.{Client, Codec}
use turtles_etcd_restore.Restore.Scope.{Scope, new_scope}
use turtles_etcd_restore.Restore.Phases.{Memory, on_store, set_phase}
use turtles_etcd_restore.Restore.Reconcile.{begin, set_paused, reconcile_scope, reconcile_normal}

abbrev pub Stored : {S : Type 0} → (S → Type 0) → Memory S → Type 0
Stored P p = P p.store

pub Keeps-on_store :
    {S A : Type 0} {P : S → Type 0} (m : M S A) → Keeps P m → Keeps (Stored P) (on_store m)
Keeps-on_store m k = record { at = λ p h. k.at p.store h }

pub Keeps-begin : {S : Type 0} (P : S → Type 0) → Keeps (Stored P) (begin {S = S})
Keeps-begin {S} P = record { at = λ p h. go p h (p.obj.status.phase == "") }
  where
    go :
        (p : Memory S)
        → P p.store
        → (b : Bool) → P (if b then set_phase Phase.started p else (ok tt, p)).1.store
    go p h true = h
    go p h false = h

module _ (c : Client) {P : c.State → Type 0}
    (get_cluster : (key : Key) (s : c.State) → P s → P (c.get_cluster key s).1)
    (list_machines : (namespace name : String) (s : c.State)
      → P s
      → P (c.list_machines namespace name s).1)
    (get_backup : (key : Key) (s : c.State) → P s → P (c.get_backup key s).1) where
  pub Keeps-new_scope : (restore : EtcdSnapshotRestore) → Keeps P (new_scope c restore)
  unfolding new_scope
  Keeps-new_scope restore = Keeps-if _ _ _ (Keeps-raise _) (
      Keeps-bind _ _ (Keeps-on_err _ _ (Keeps-call _ (get_cluster _))) (λ cluster.
        Keeps-bind _ _ (Keeps-call _ (list_machines _ _)) (λ machines.
          Keeps-bind _ _ (Keeps-on_err _ _ (Keeps-call _ (get_backup _)))
            (λ backup. Keeps-pure _))))

module _ (c : Client) (k : Codec) {P : c.State → Type 0}
    (get_cluster : (key : Key) (s : c.State) → P s → P (c.get_cluster key s).1)
    (list_machines : (namespace name : String) (s : c.State)
      → P s
      → P (c.list_machines namespace name s).1)
    (get_backup : (key : Key) (s : c.State) → P s → P (c.get_backup key s).1)
    (patch_cluster : (base obj : Cluster) (s : c.State)
      → P s
      → P (c.patch_cluster base obj s).1) where
  never_paused :
      ((base obj : Cluster) (s : c.State)
        → (e : ApiError) × ((c.patch_cluster base obj s).0 ≡ fail e))
      → (cluster : Cluster) → Ensures (Stored P) (set_paused c k true cluster) (λ _ _. ⊥)
  unfolding set_paused ◌>>=◌
  never_paused refused cluster = record {
    at = λ p h a e.
        let (x, r) = refused cluster (record cluster { paused = true }) p.store in
        let answer = answered-eq_ok _ (wrapped-eq_ok "failed to pause cluster" _ e) in cc;
  }

  Keeps-scope :
      ((base obj : Cluster) (s : c.State)
        → (e : ApiError) × ((c.patch_cluster base obj s).0 ≡ fail e))
      → (scope : Scope) → Keeps (Stored P) (reconcile_scope c k scope)
  unfolding reconcile_scope set_paused
  Keeps-scope refused scope =
      Keeps-if _ _ _
        (Leaves-bind {R = λ _ _. ⊥} _ _
          (Keeps-on_store _ (Keeps-on_err _ _ (Keeps-call _ (patch_cluster _ _))))
          (never_paused refused scope.cluster) (λ cluster. record { at = λ p h. absurd h.0 }))
        (Keeps-pure _)

  -- If the server refuses every patch of a cluster, then `reconcileNormal` keeps whatever the reads
  -- that build the scope and the refused patches keep: where the cluster cannot be paused, no plan
  -- secret is read or written.
  pub reconcile_normal-Keeps :
      ((base obj : Cluster) (s : c.State)
        → (e : ApiError) × ((c.patch_cluster base obj s).0 ≡ fail e))
      → (p : Memory c.State) → P p.store
      → P (reconcile_normal c k p).1.store
  unfolding reconcile_normal
  reconcile_normal-Keeps refused p h =
      (Keeps-bind {P = Stored P} _ _ (Keeps-begin P) (λ _.
          Keeps-bind _ _
            (record {
              at = λ q h'.
                  (Keeps-new_scope c get_cluster list_machines get_backup q.obj).at q.store h';
            })
            (λ scope. Keeps-scope refused scope))).at
        p h
