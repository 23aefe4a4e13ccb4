-- ===== src/Restore/Pausing.antt =====
-- When the cluster of a restore is paused, and when it is released.
use turtles_etcd_restore.Base.{
  String, ◌≡◌, inl, inr, refl, sym, ap, ◌∙◌, Bool, true, false, Bool-cases, List, All, All-of, ◌==◌,
  eq_iff, arith, if◌then◌else◌,
}
use mathlib.Core.Path.{subst}
use turtles_etcd_restore.Api.{EtcdMachineBackup}
use turtles_etcd_restore.Api.Phase
use turtles_etcd_restore.Objects.{Key, Machine, Cluster}
use turtles_etcd_restore.Go.Outcome.{M, ok, done, ◌>>=◌}
use turtles_etcd_restore.Go.Rules.{
  wrapped-eq_ok, answered-eq_ok, Keeps, Ensures, Ensures-pure, Ensures-if, Ensures-bind,
}
use turtles_etcd_restore.Client.{Client, Codec}
use turtles_etcd_restore.Restore.Scope.{Scope}
use turtles_etcd_restore.Restore.Phases.{Memory, Result}
use turtles_etcd_restore.Restore.Reconcile.{
  begin, all_running, set_paused, switch_phase, reconcile_scope, reconcile_normal,
}
use turtles_etcd_restore.Restore.Refused.{Stored}
use turtles_etcd_restore.Restore.Frame.{SecretFrame, Known}
use turtles_etcd_restore.Restore.Work.{stop-Frame, restore-Frame, start-Frame}
use turtles_etcd_restore.Restore.Advances.{
  all_running-All, reaches_scope, begun_empty, begun_not_empty, IsReadable-begun,
}
use turtles_etcd_restore.Restore.Reported.{scope_of, IsReadable}

abbrev pub cluster_key : Cluster → Key
cluster_key cluster = record { namespace = cluster.namespace; name = cluster.name }

-- What the pausing of a cluster relies on, with `paused_at` what the server holds as `Spec.Paused`
-- of the cluster of a name: a patch that is done has set it and answers with the same cluster, and
-- the calls for plan secrets do not change it.
pub record PauseLaws (c : Client) (paused_at : Key → c.State → Bool) : Type 0 where
  pub patch_done :
      (base : Cluster) (paused : Bool) (s : c.State) (x : Cluster)
      → (c.patch_cluster base (record base { paused = paused }) s).0 ≡ done x
      → (cluster_key x ≡ cluster_key base)
        × (paused_at (cluster_key base) (c.patch_cluster base (record base { paused = paused }) s).1
            ≡ paused)
  pub secrets : (key : Key) (b : Bool) → SecretFrame c (λ machine. Unit) (λ s. paused_at key s ≡ b)

-- Whether the cluster of a restore in this phase is to be paused.
abbrev pub to_be_paused : String → Bool
to_be_paused phase = if phase == Phase.finished then false else true

in_progress :
    (phase other : String)
    → (phase == other) ≡ true
    → (other == Phase.finished) ≡ false
    → true ≡ to_be_paused phase
in_progress phase other e ne = ground (arith, eq_iff phase other)

module _ (c : Client) (k : Codec) (paused_at : Key → c.State → Bool)
    (L : PauseLaws c paused_at) where
  -- The server holds this as `Spec.Paused` of the cluster.
  PausedIs : Key → Bool → Memory c.State → Type 0
  PausedIs key b p = paused_at key p.store ≡ b

  set_paused-Ensures :
      (paused : Bool) (cluster : Cluster) (phase : String)
      → Ensures
          (λ p. p.obj.status.phase ≡ phase)
          (set_paused c k paused cluster)
          (λ x p.
            PausedIs (cluster_key cluster) paused p
            × (cluster_key x ≡ cluster_key cluster)
            × (p.obj.status.phase ≡ phase))
  unfolding set_paused PausedIs ◌>>=◌
  set_paused-Ensures paused cluster phase = record {
    at = λ p h x e.
        let (same, now) =
          L.patch_done cluster paused p.store x (answered-eq_ok _ (wrapped-eq_ok _ _ e)) in
        (now, same, h);
  }

  anyone : (machines : List Machine) → All (Known (λ machine. Unit)) machines
  anyone machines = All-of _ machines (λ m i config has. tt)

  kept_paused :
      {m : M (Memory c.State) Result} (key : Key) (phase other : String)
      → (phase == other) ≡ true
      → (other == Phase.finished) ≡ false
      → Keeps (Stored (λ s. paused_at key s ≡ true)) m
      → Ensures (PausedIs key true) m (λ _. PausedIs key (to_be_paused phase))
  unfolding PausedIs
  kept_paused key phase other e ne keeps = record {
    at = λ p h r done_with. keeps.at p h ∙ in_progress phase other e ne;
  }

  switch-Ensures :
      (phase : String) (scope : Scope)
      → Ensures
          (PausedIs (cluster_key scope.cluster) true)
          (switch_phase c k phase scope)
          (λ _. PausedIs (cluster_key scope.cluster) (to_be_paused phase))
  unfolding switch_phase PausedIs
  switch-Ensures phase scope =
      let key = cluster_key scope.cluster in
      let S : SecretFrame c (λ machine. Unit) (λ s. paused_at key s ≡ true) = L.secrets key true in
      Ensures-if _ _ _
        (λ e.
          kept_paused key phase Phase.started e refl
            (stop-Frame c k S scope (anyone scope.machines)))
        (λ _.
          Ensures-if _ _ _
            (λ e.
              kept_paused key phase Phase.shutdown e refl
                (restore-Frame c k S scope (λ m is config has. tt)))
            (λ _.
              Ensures-if _ _ _
                (λ e.
                  kept_paused key phase Phase.restore e refl
                    (start-Frame c k S scope (λ m is config has. tt) (anyone scope.machines)))
                (λ _.
                  Ensures-if (phase == Phase.finished) _ _
                    (λ e.
                      Ensures-bind {R = λ x p. PausedIs key false p} _ _
                        (record {
                          at = λ p h x done_with.
                              ((set_paused-Ensures false scope.cluster p.obj.status.phase).at p refl
                                x done_with).0;
                        })
                        (λ x.
                          Ensures-pure _ (λ p h. h ∙ ap (λ b. if b then false else true) (sym e))))
                    (λ ne.
                      Ensures-pure _ (λ p h. h ∙ ap (λ b. if b then false else true) (sym ne))))))

  scope-Ensures :
      (phase : String) (scope : Scope)
      → all_running scope.machines ≡ true
      → Ensures
          (λ p. p.obj.status.phase ≡ phase)
          (reconcile_scope c k scope)
          (λ _. PausedIs (cluster_key scope.cluster) (to_be_paused phase))
  unfolding reconcile_scope
  scope-Ensures phase scope running =
      Ensures-if _ _ _
        (λ _. Ensures-bind _ _ (set_paused-Ensures true scope.cluster phase) (λ x. record {
          at = λ p (paused, same, is) r e.
              let work = switch_phase c k p.obj.status.phase (record scope { cluster = x }) in
              let held : PausedIs (cluster_key x) (to_be_paused p.obj.status.phase) (work p).1 =
                (switch-Ensures p.obj.status.phase (record scope { cluster = x })).at p
                  (subst (λ key. PausedIs key true p) (sym same) paused) r e in
              subst (λ key. PausedIs key (to_be_paused phase) (work p).1) same
                (subst (λ at. PausedIs (cluster_key x) (to_be_paused at) (work p).1) is held);
        }))
        (λ not_running. absurd (differ (sym running ∙ not_running)))
    where
      differ : true ≡ false → ⊥
      differ e = cc

  -- The run from where `begin` has left the object.
  begun_paused :
      (p q : Memory c.State) (cluster : Cluster) (machines : List Machine)
      (backup : EtcdMachineBackup) (result : Result)
      → begin p ≡ (ok tt, q)
      → IsReadable c q.obj cluster machines backup q.store
      → (reconcile_normal c k p).0 ≡ ok result
      → PausedIs (cluster_key cluster) (to_be_paused q.obj.status.phase) (reconcile_normal c k p).1
  begun_paused p q cluster machines backup result begun h e =
      let scope : Scope = scope_of cluster machines backup in
      let same = reaches_scope c k p q cluster machines backup begun h in
      subst (λ r. PausedIs (cluster_key cluster) (to_be_paused q.obj.status.phase) r.1) (sym same)
        ((scope-Ensures q.obj.status.phase scope (all_running-All machines h.running)).at q refl
          result (ap (λ r. r.0) (sym same) ∙ e))

  -- Let a patch of a cluster that is done set `Spec.Paused` as asked, which the calls for plan
  -- secrets do not change, and let the reads that build the scope of a restore succeed and find all
  -- machines running. If `reconcileNormal` succeeds, then afterwards the server holds the cluster
  -- as paused, unless the restore was in its finished phase before: then it holds it as not paused.
  pub paused_until_finished :
      (p : Memory c.State) (cluster : Cluster) (machines : List Machine)
      (backup : EtcdMachineBackup) (result : Result)
      → IsReadable c p.obj cluster machines backup p.store
      → (reconcile_normal c k p).0 ≡ ok result
      → paused_at (cluster_key cluster) (reconcile_normal c k p).1.store
        ≡ (if p.obj.status.phase == Phase.finished then false else true)
  unfolding PausedIs
  paused_until_finished p cluster machines backup result h e =
      elim (Bool-cases (p.obj.status.phase == "")) [
        | inl empty ↦
            let is : p.obj.status.phase ≡ "" = ground (arith, eq_iff p.obj.status.phase "") in
            begun_paused p _ cluster machines backup result (begun_empty c k p is)
              (IsReadable-begun c k p.obj cluster machines backup p.store h) e
            ∙ in_progress p.obj.status.phase "" empty refl
        | inr other ↦
            begun_paused p p cluster machines backup result
              (begun_not_empty c k p (λ is. ground (arith, eq_iff p.obj.status.phase ""))) h e
      ]
