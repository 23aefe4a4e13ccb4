-- ===== src/Restore/Order.antt =====
-- The order in which a restore goes through its phases, whatever the API server answers.
use turtles_etcd_restore.Base.{
  String, ◌≡◌, ◌≢◌, refl, ◌⊎◌, inl, inr, Bool, true, false, arith, Bool-cases, ◌==◌, eq_iff,
}
use turtles_etcd_restore.Api.{EtcdSnapshotRestore}
use turtles_etcd_restore.Api.Phase
use turtles_etcd_restore.Objects.{Machine}
use turtles_etcd_restore.Client.{Client, Codec}
use turtles_etcd_restore.Go.Outcome.{M, Outcome, ok, err, panic, continue, ◌>>=◌}
use turtles_etcd_restore.Restore.Scope.{Scope, new_scope}
use turtles_etcd_restore.Restore.Phases.{
  Result, Memory, with_phase, stop_rke2_on_all_machines, restore_snapshot_on_init_machine,
  start_from, start_others, start_rke2_on_all_machines,
}
use turtles_etcd_restore.Restore.Reconcile.{
  all_running, set_paused, switch_phase, reconcile_scope, reconcile_normal,
}

-- The moves of `Status.Phase` in one reconciliation, from `p` to `q`.
pub data Move (p q : String) : Type 0 where
  stay : q ≡ p → Move p q
  commence : p ≡ "" → q ≡ Phase.started → Move p q
  halt : (p ≡ "") ⊎ (p ≡ Phase.started) → q ≡ Phase.shutdown → Move p q
  recover : p ≡ Phase.shutdown → q ≡ Phase.restore → Move p q
  complete : p ≡ Phase.restore → q ≡ Phase.finished → Move p q

-- The object that is left differs from `before` in its phase at most, and that has made a move.
abbrev pub Moved : EtcdSnapshotRestore → EtcdSnapshotRestore → Type 0
Moved before after =
    (after ≡ with_phase after.status.phase before) × Move before.status.phase after.status.phase

abbrev Either : EtcdSnapshotRestore → String → EtcdSnapshotRestore → Type 0
Either before phase after = (after ≡ before) ⊎ (after ≡ with_phase phase before)

Moved-of :
    {before after : EtcdSnapshotRestore} {phase : String}
    → Either before phase after
    → Move before.status.phase phase
    → Moved before after
Moved-of (inl e) m = rw e (refl, stay refl)
Moved-of (inr e) m = rw e (refl, m)

started_not : (s : String) → (Phase.started == s) ≡ false → Phase.started ≢ s
started_not s e h = ground (arith, eq_iff Phase.started s)

begun :
    {before after : EtcdSnapshotRestore}
    → before.status.phase ≡ ""
    → Moved (with_phase Phase.started before) after
    → Moved before after
begun e (same, stay h) = (same, commence e h)
begun e (same, commence h _) = absurd (started_not _ refl h)
begun e (same, halt _ h) = (same, halt (inl e) h)
begun e (same, recover h _) = absurd (started_not _ refl h)
begun e (same, complete h _) = absurd (started_not _ refl h)

-- A step that leaves the object alone, before one that makes a move.
continue_moves :
    {S A : Type 0} (r : Outcome A) (f : A → M (Memory S) Result) (p : Memory S)
    → ((a : A) → Moved p.obj (f a p).1.obj)
    → Moved p.obj (continue r f p).1.obj
continue_moves (ok a) f p h = h a
continue_moves (err e) f p h = (refl, stay refl)
continue_moves panic f p h = (refl, stay refl)

module _ (c : Client) (k : Codec) where
  stop_moves :
      (scope : Scope) (p : Memory c.State)
      → Either p.obj Phase.shutdown (stop_rke2_on_all_machines c k scope p).1.obj
  unfolding stop_rke2_on_all_machines ◌>>=◌
  stop_moves scope p = ground arith

  restore_moves :
      (scope : Scope) (p : Memory c.State)
      → Either p.obj Phase.restore (restore_snapshot_on_init_machine c k scope p).1.obj
  unfolding restore_snapshot_on_init_machine ◌>>=◌
  restore_moves scope p = ground arith

  others_moves :
      (scope : Scope) (init_machine : Machine) (started : Bool) (p : Memory c.State)
      → Either p.obj Phase.finished (start_others c k scope init_machine started p).1.obj
  unfolding start_others ◌>>=◌
  others_moves scope init_machine started p = ground arith

  start_from_moves :
      (scope : Scope) (init_machine : Machine) (p : Memory c.State)
      → Either p.obj Phase.finished (start_from c k scope init_machine p).1.obj
  unfolding start_from ◌>>=◌
  start_from_moves scope init_machine p = grind (arith, others_moves)

  start_moves :
      (scope : Scope) (p : Memory c.State)
      → Either p.obj Phase.finished (start_rke2_on_all_machines c k scope p).1.obj
  unfolding start_rke2_on_all_machines ◌>>=◌
  start_moves scope p = grind (arith, start_from_moves)

  pub switch_moves :
      (scope : Scope) (p : Memory c.State)
      → Moved p.obj (switch_phase c k p.obj.status.phase scope p).1.obj
  unfolding switch_phase ◌>>=◌
  switch_moves scope p = elim (Bool-cases (p.obj.status.phase == Phase.started)) [
    | inl is ↦ rw is (Moved-of (stop_moves scope p) (halt (inr ((eq_iff _ _).0 is)) refl))
    | inr isnt ↦ rw isnt (elim (Bool-cases (p.obj.status.phase == Phase.shutdown)) [
      | inl is ↦ rw is (Moved-of (restore_moves scope p) (recover ((eq_iff _ _).0 is) refl))
      | inr isnt ↦ rw isnt (elim (Bool-cases (p.obj.status.phase == Phase.restore)) [
        | inl is ↦ rw is (Moved-of (start_moves scope p) (complete ((eq_iff _ _).0 is) refl))
        | inr isnt ↦
            rw isnt (Moved-of {phase = p.obj.status.phase} (inl (ground arith)) (stay refl))
      ])
    ])
  ]

  reconcile_scope_moves :
      (scope : Scope) (p : Memory c.State) → Moved p.obj (reconcile_scope c k scope p).1.obj
  unfolding reconcile_scope ◌>>=◌
  reconcile_scope_moves scope p = elim (Bool-cases (all_running scope.machines)) [
    | inl yes_running ↦ rw yes_running (
        continue_moves (set_paused c k true scope.cluster p).0
          (λ cluster q. switch_phase c k q.obj.status.phase (record scope { cluster = cluster }) q)
          (set_paused c k true scope.cluster p).1
          (λ cluster. switch_moves (record scope { cluster = cluster }) _))
    | inr not_running ↦ rw not_running (refl, stay refl)
  ]

  -- In a phase that is not empty.
  normal_moves :
      (p : Memory c.State)
      → (p.obj.status.phase == "") ≡ false
      → Moved p.obj (reconcile_normal c k p).1.obj
  unfolding reconcile_normal ◌>>=◌
  normal_moves p set = rw set (
      continue_moves (new_scope c p.obj p.store).0 (reconcile_scope c k)
        (record p { store = (new_scope c p.obj p.store).1 })
        (λ scope. reconcile_scope_moves scope _))

  -- Whatever the client answers, a run of `reconcileNormal`, also one that ends in an error or a
  -- panic, leaves the restore object as it was but for its phase, and the phase makes one of the
  -- moves: it stays, begins from the empty phase, or goes one step further on the way from the
  -- start over the shutdown and the restore to the end (from the empty phase, two steps).
  pub reconcile_normal_moves : (p : Memory c.State) → Moved p.obj (reconcile_normal c k p).1.obj
  unfolding reconcile_normal ◌>>=◌
  reconcile_normal_moves p = elim (Bool-cases (p.obj.status.phase == "")) [
    | inl is ↦ rw is (
        begun ((eq_iff _ _).0 is)
          (normal_moves (record p { obj = with_phase Phase.started p.obj }) refl))
    | inr isnt ↦ normal_moves p isnt
  ]
