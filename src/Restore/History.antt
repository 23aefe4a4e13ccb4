-- ===== src/Restore/History.antt =====
-- Runs of `Reconcile` one after the other, with others at work between them.
use turtles_etcd_restore.Base.{
  ℕ, suc, ◌+◌, ◌≤◌, ◌<◌, String, ◌≡◌, ◌≢◌, refl, sym, ◌∙◌, ◌⊎◌, inl, inr, List, In, ◌==◌, arith,
  if◌then◌else◌,
}
use turtles_etcd_restore.Api.{EtcdSnapshotRestore}
use turtles_etcd_restore.Api.Phase
use turtles_etcd_restore.Objects.{Key, Machine}
use turtles_etcd_restore.Go.Outcome.{done}
use turtles_etcd_restore.Instructions.Distinct.{restore_plan}
use turtles_etcd_restore.Client.{Client, Codec}
use turtles_etcd_restore.Client.Laws.{Rely}
use turtles_etcd_restore.Restore.Reconcile.{reconcile_normal, reconcile}
use turtles_etcd_restore.Restore.Order.{Move, reconcile_normal_moves}
use turtles_etcd_restore.Restore.Applied.{Reports}
use turtles_etcd_restore.Restore.Spec.{Listed, Ready, Apart, Step}
use turtles_etcd_restore.Restore.Refines.{reconcile_normal-Step}
use turtles_etcd_restore.Restore.SavedPhase.{PhaseLaws, Saves, begun_with, reconcile-Saves}

-- How far a phase is on the way to the end.
abbrev pub rank : String → ℕ
rank phase =
    if phase == ""
    then 0
    else if phase == Phase.started
    then 1
    else if phase == Phase.shutdown
    then 2
    else if phase == Phase.restore
    then 3
    else 4

rank-le : (phase : String) → rank phase ≤ 4
rank-le phase = ground arith

-- A move that changes the phase goes forward.
rank-Move : (p q : String) → Move p q → (q ≡ p) ⊎ (rank p < rank q)
rank-Move p q (Move.stay e) = inl e
rank-Move p q (Move.commence e h) = inr (rw (e, h) (omega arith))
rank-Move p q (Move.halt (inl e) h) = inr (rw (e, h) (omega arith))
rank-Move p q (Move.halt (inr e) h) = inr (rw (e, h) (omega arith))
rank-Move p q (Move.recover e h) = inr (rw (e, h) (omega arith))
rank-Move p q (Move.complete e h) = inr (rw (e, h) (omega arith))

module _ (c : Client) (k : Codec) (key : Key) (saved_phase : c.State → String) where
  -- Runs of `Reconcile` with this key, from a state of the server to another, with the number of
  -- those that changed the phase that the server has saved. Between them others change the server
  -- as they like, but for this phase. A run may end in any way.
  pub data Runs (to : c.State) : c.State → ℕ → Type 0 where
    none_left : Runs to to 0
    between : {n : ℕ} (s t : c.State) → saved_phase t ≡ saved_phase s → Runs to t n → Runs to s n
    quiet :
        {n : ℕ} (s : c.State)
        → saved_phase (reconcile c k key s).1 ≡ saved_phase s
        → Runs to (reconcile c k key s).1 n
        → Runs to s n
    change :
        {n : ℕ} (s : c.State)
        → saved_phase (reconcile c k key s).1 ≢ saved_phase s
        → Runs to (reconcile c k key s).1 n
        → Runs to s (suc n)

  -- One of the runs started in this state.
  pub HasRun : {to s : c.State} {n : ℕ} → c.State → Runs to s n → Type 0
  HasRun t none_left = ⊥
  HasRun t (between s u same rest) = HasRun t rest
  HasRun t (quiet s same rest) = (t ≡ s) ⊎ HasRun t rest
  HasRun t (change s differs rest) = (t ≡ s) ⊎ HasRun t rest

module _ (c : Client) (k : Codec) (key : Key) (saved_phase : c.State → String)
    (P : PhaseLaws c key saved_phase) where
  forward :
      (s : c.State)
      → saved_phase (reconcile c k key s).1 ≢ saved_phase s
      → rank (saved_phase s) < rank (saved_phase (reconcile c k key s).1)
  forward s differs = elim (reconcile-Saves c k key saved_phase P s) [
    | inl same ↦ absurd (differs same)
    | inr run ↦
        elim (rank-Move _ _ (reconcile_normal_moves c k (begun_with c key run.restore s)).1) [
          | inl same ↦ absurd (differs (run.to ∙ same ∙ sym run.from))
          | inr less ↦ rw (run.from, run.to) less
        ]
  ]

  changes_counted :
      {to s : c.State} {n : ℕ}
      → Runs c k key saved_phase to s n
      → n + rank (saved_phase s) ≤ rank (saved_phase to)
  changes_counted none_left = omega arith
  changes_counted (between s t same rest) = rw (← same) (changes_counted rest)
  changes_counted (quiet s same rest) = rw (← same) (changes_counted rest)
  changes_counted (change s differs rest) = omega (arith, forward s differs, changes_counted rest)

  -- However many runs there are, and whatever others do between them and the server answers, also
  -- where it refuses patches or does not answer that it has done them: at most four of the runs
  -- change the phase that the server has saved for the restore, if nobody but the patches of the
  -- status changes it, and these only from the phase that the run has read.
  pub changes-le : (to s : c.State) (n : ℕ) → Runs c k key saved_phase to s n → n ≤ 4
  changes-le to s n runs = omega (arith, changes_counted runs, rank-le (saved_phase to))

module _ (c : Client) (k : Codec) (L : Rely c k.sha256) (key : Key) where
  -- The run from this state restored the snapshot of the restore that it read.
  pub record RestoredBy (t : c.State) : Type 0 where
    pub restore : EtcdSnapshotRestore
    pub read : (c.get_restore key t).0 ≡ done restore
    pub was : restore.status.phase ≡ Phase.shutdown
    pub ready : Ready c restore.namespace restore.spec (c.get_restore key t).1
    pub located : ready.backup.spec.location ≢ ""
    pub machine : Machine
    pub listed : In machine ready.machines
    pub named : machine.name ≡ ready.backup.spec.machine_name
    pub reported :
        Reports c k.sha256 L machine
          (restore_plan ready.backup)
          (reconcile_normal c k (begun_with c key restore t)).1.store

  module _ (saved_phase : c.State → String) (P : PhaseLaws c key saved_phase)
      (apart : (machines : List Machine) → Listed c machines → Apart machines) where
    passed :
        (s : c.State) (run : Saves c k key saved_phase s)
        → saved_phase (reconcile c k key s).1 ≢ saved_phase s
        → rank run.restore.status.phase ≤ 2
        → Step c k L run.restore.namespace run.restore.spec
            (c.get_restore key s).1
            run.restore.status.phase
            (reconcile_normal c k (begun_with c key run.restore s)).1
        → RestoredBy s ⊎ (rank (saved_phase (reconcile c k key s).1) ≤ 2)
    passed s run differs low (Step.wait e) = absurd (differs (run.to ∙ e ∙ sym run.from))
    passed s run differs low (Step.commence e h) = inr (rw (run.to ∙ h) (omega arith))
    passed s run differs low (Step.halt e h ready reports) = inr (rw (run.to ∙ h) (omega arith))
    passed s run differs low (Step.recover e h ready located machine there named reports) =
        inl (record {
          restore = run.restore;
          read = run.read;
          was = e;
          ready = ready;
          located = located;
          machine = machine;
          listed = there;
          named = named;
          reported = reports;
        })
    passed s run differs low
          (Step.complete e h ready machine there named addressed started joined) =
        absurd (too_far (rw e at low))
      where
        too_far : rank Phase.restore ≤ 2 → ⊥
        too_far h' = omega arith

    one_run :
        (s : c.State)
        → saved_phase (reconcile c k key s).1 ≢ saved_phase s
        → rank (saved_phase s) ≤ 2
        → RestoredBy s ⊎ (rank (saved_phase (reconcile c k key s).1) ≤ 2)
    one_run s differs low = elim (reconcile-Saves c k key saved_phase P s) [
      | inl same ↦ absurd (differs same)
      | inr run ↦
          passed s run differs (rw (← run.from) low)
            (reconcile_normal-Step c k L apart (begun_with c key run.restore s))
    ]

    restored_between :
        {to s : c.State} {n : ℕ} (runs : Runs c k key saved_phase to s n)
        → rank (saved_phase s) ≤ 2
        → 2 < rank (saved_phase to)
        → (t : c.State) × HasRun c k key saved_phase t runs × RestoredBy t
    unfolding HasRun
    restored_between none_left low high = absurd (omega arith)
    restored_between (between s t same rest) low high = restored_between rest (rw same low) high
    restored_between (quiet s same rest) low high =
        let (t, started, by) = restored_between rest (rw same low) high in (t, inr started, by)
    restored_between (change s differs rest) low high = elim (one_run s differs low) [
      | inl by ↦ (s, inl refl, by)
      | inr still ↦ let (t, started, by) = restored_between rest still high in (t, inr started, by)
    ]

    -- Where the server lists no two machines of different names with the same plan secret, and
    -- nobody but the patches of the status changes the phase that it has saved for the restore,
    -- and these only from the phase that the run has read: among runs of `Reconcile` that lead the
    -- saved phase from the empty to the finished one, with others at work between them, there is
    -- one that read the restore in the shutdown phase and then, of this restore, its cluster, the
    -- machines of this cluster, all of them running, and its backup, which has a location, and that
    -- had the cluster paused; and when its `reconcileNormal` returned, the machine with the name in
    -- this backup had reported the plan that restores it.
    pub finished_restored :
        (to s : c.State) (n : ℕ) (runs : Runs c k key saved_phase to s n)
        → saved_phase s ≡ ""
        → saved_phase to ≡ Phase.finished
        → (t : c.State) × HasRun c k key saved_phase t runs × RestoredBy t
    finished_restored to s n runs from_empty to_finished =
        restored_between runs (rw from_empty (omega arith)) (rw to_finished (omega arith))
