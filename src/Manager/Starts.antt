-- ===== src/Manager/Starts.antt =====
-- The process starts its manager where everything is registered with it and the scheme knows the
-- types of api/v1alpha1, and nowhere else.
use turtles_etcd_restore.Base.{List, [], ◌∷◌, All}
use turtles_etcd_restore.Api.Register.{ObjectType, scheme_builder, scheme_builder-Has}
use turtles_etcd_restore.Go.Outcome.{M}
use turtles_etcd_restore.Go.Rules.{
  Leaves, Ensures, Keeps-on_err, Ensures-on_err, Ensures-bind, Keeps-bind, Keeps-pure, Ensures-pure,
}
use turtles_etcd_restore.Manager.Framework.{Framework, SchemeGroup, ForeignGroup, Watched, must}
use turtles_etcd_restore.Manager.Rules.{Runs, Runs-return, Runs-exit_on_err, Runs-must, Runs-bind}
use turtles_etcd_restore.Manager.Controllers.{
  setup_snapshot_sync, setup_machine_backup, setup_snapshot, setup_webhook,
}
use turtles_etcd_restore.Manager.Setup.{setup_checks, setup_reconcilers, setup_webhooks}
use turtles_etcd_restore.Manager.Main.{add_group, init, main, process}
use turtles_etcd_restore.Manager.Facts.{
  Have, Inert-Leaves, Runs-Inert, must-Inert, Runs-Calm, Runs-Establishes,
}
use turtles_etcd_restore.Manager.Registry.{
  Part, readyz, healthz, handler, Fact, known, registered, Establishes, Registry,
}

module _ (f : Framework) (Q : f.State → Type 0) (R : Fact f.Manager → f.State → Type 0)
    {Has : f.builders.Builder → ObjectType → Type 0} (k : Registry f Q R Has) where
  abbrev known_types : List (Fact f.Manager)
  known_types =
      known ObjectType.etcd_machine_backup
      ∷ known ObjectType.etcd_machine_backup_list
      ∷ known ObjectType.etcd_snapshot_restore
      ∷ known ObjectType.etcd_snapshot_restore_list
      ∷ []

  Runs-turtles_capi :
      Runs
        (Have f Q R [])
        (must (add_group f SchemeGroup.turtles_capi))
        Q
        (λ a. Have f Q R known_types)
  unfolding add_group
  Runs-turtles_capi =
      let (inert, knows) = k.add_built_to_scheme (scheme_builder f.builders) in
      let learns : (t : ObjectType) → Ensures (λ s. Unit) _ (λ a. R (known t)) =
        λ t. knows t (scheme_builder-Has f.builders k.registers t) in
      Runs-must _ (Inert-Leaves f Q R [] _ inert) (record {
        at = λ s h a e. record {
          holds = inert.keeps.at s h.holds;
          established = (
            (learns ObjectType.etcd_machine_backup).at s tt a e,
            (
              (learns ObjectType.etcd_machine_backup_list).at s tt a e,
              (
                (learns ObjectType.etcd_snapshot_restore).at s tt a e,
                ((learns ObjectType.etcd_snapshot_restore_list).at s tt a e, tt),
              ),
            ),
          );
        };
      })

  Runs-foreign :
      (facts : List (Fact f.Manager)) (group : ForeignGroup)
      → Runs
          (Have f Q R facts)
          (must (add_group f (SchemeGroup.foreign group)))
          Q
          (λ a. Have f Q R facts)
  unfolding add_group
  Runs-foreign facts group = must-Inert f Q R facts _ (k.add_to_scheme group)

  Runs-init : Runs (Have f Q R []) (init f) Q (λ a. Have f Q R known_types)
  unfolding init
  Runs-init = Runs-bind _ _ (Runs-foreign [] _) (λ a. Runs-bind _ _ (Runs-foreign [] _) (λ b.
      Runs-bind _ _ Runs-turtles_capi
        (λ c. Runs-bind _ _ (Runs-foreign known_types _) (λ d. Runs-return tt (λ s h. h.holds)))))

  setup_snapshot_sync-Establishes :
      (client : f.ApiClient) (tracker : f.Tracker) (mgr : f.Manager)
      → Establishes f Q R
          (registered mgr (handler Watched.cluster))
          (setup_snapshot_sync f client tracker mgr)
  unfolding setup_snapshot_sync
  setup_snapshot_sync-Establishes client tracker mgr =
      let (inert, registers) = k.build mgr Watched.cluster _ in
      (
        record {
          keeps = Keeps-bind _ _ (Keeps-on_err _ _ inert.keeps) (λ c. Keeps-pure _);
          stays = λ fact. Keeps-bind _ _ (Keeps-on_err _ _ (inert.stays fact)) (λ c. Keeps-pure _);
        },
        Ensures-bind _ _ (Ensures-on_err _ _ registers) (λ c. Ensures-pure _ (λ s h. h)),
      )

  abbrev checks : f.Manager → List (Fact f.Manager)
  checks mgr = registered mgr healthz ∷ registered mgr readyz ∷ known_types

  Runs-setup_checks :
      (mgr : f.Manager)
      → Runs (Have f Q R known_types) (setup_checks f mgr) Q (λ a. Have f Q R (checks mgr))
  unfolding setup_checks
  Runs-setup_checks mgr =
      Runs-bind _ _ (Runs-Establishes f Q R _ _ _ (k.add_readyz_check mgr _ _))
        (λ a. Runs-Establishes f Q R _ _ _ (k.add_healthz_check mgr _ _))

  abbrev controllers : f.Manager → List (Fact f.Manager)
  controllers mgr =
      registered mgr (handler Watched.etcd_snapshot_restore)
      ∷ registered mgr (handler Watched.etcd_machine_backup)
      ∷ registered mgr (handler Watched.cluster)
      ∷ checks mgr

  Runs-setup_reconcilers :
      (mgr : f.Manager)
      → Runs
          (Have f Q R (checks mgr))
          (setup_reconcilers f mgr)
          Q
          (λ a. Have f Q R (controllers mgr))
  unfolding setup_reconcilers setup_machine_backup setup_snapshot
  Runs-setup_reconcilers mgr = Runs-bind _ _ (Runs-Inert f Q R _ _ (k.new_client _ _ _)) (λ client.
      Runs-bind _ _ (Runs-Inert f Q R _ _ (k.new_cluster_cache_tracker mgr client _)) (λ tracker.
        Runs-bind _ _ (Runs-Establishes f Q R _ _ _ (setup_snapshot_sync-Establishes _ tracker mgr))
          (λ r.
            Runs-bind _ _ (Runs-Establishes f Q R _ _ _ (k.complete mgr _ _))
              (λ a. Runs-Establishes f Q R _ _ _ (k.complete mgr _ _)))))

  abbrev everything : f.Manager → List (Fact f.Manager)
  everything mgr = registered mgr (handler Watched.rke2_config) ∷ controllers mgr

  Runs-setup_webhooks :
      (mgr : f.Manager)
      → Runs
          (Have f Q R (controllers mgr))
          (setup_webhooks f mgr)
          Q
          (λ a. Have f Q R (everything mgr))
  unfolding setup_webhooks setup_webhook
  Runs-setup_webhooks mgr = Runs-Establishes f Q R _ _ _ (k.complete_webhook mgr _ _)

  every_part :
      (mgr : f.Manager) (s : f.State)
      → All (λ fact. R fact s) (everything mgr)
      → (part : Part) → R (registered mgr part) s
  every_part mgr s h readyz = h.1.1.1.1.1.0
  every_part mgr s h healthz = h.1.1.1.1.0
  every_part mgr s h (handler Watched.cluster) = h.1.1.1.0
  every_part mgr s h (handler Watched.etcd_machine_backup) = h.1.1.0
  every_part mgr s h (handler Watched.etcd_snapshot_restore) = h.1.0
  every_part mgr s h (handler Watched.rke2_config) = h.0

  every_type : (s : f.State) → All (λ fact. R fact s) known_types → (t : ObjectType) → R (known t) s
  every_type s h ObjectType.etcd_machine_backup = h.0
  every_type s h ObjectType.etcd_machine_backup_list = h.1.0
  every_type s h ObjectType.etcd_snapshot_restore = h.1.1.0
  every_type s h ObjectType.etcd_snapshot_restore_list = h.1.1.1.0

  start-Leaves : (mgr : f.Manager) → Leaves (Have f Q R (everything mgr)) (f.start mgr) Q
  start-Leaves mgr = record {
    at = λ s h.
        (k.start mgr).at s
          (h.holds, every_type s h.established.1.1.1.1.1.1, every_part mgr s h.established);
  }

  Nothing-ensures :
      {A : Type 0} {P : f.State → Type 0} (m : M f.State A) → Ensures P m (λ a s. Unit)
  Nothing-ensures m = record { at = λ s h a e. tt }

  Runs-main : Runs (Have f Q R known_types) (main f) Q (λ a s. Unit)
  unfolding main
  Runs-main = Runs-bind _ _ (Runs-Calm f Q R _ _ (k.parse _)) (λ given.
      Runs-bind _ _ (Runs-Calm f Q R _ _ k.get_config) (λ config.
        Runs-bind _ _ (Runs-Inert f Q R _ _ (k.new_manager config _)) (λ mgr.
          Runs-bind _ _ (Runs-setup_checks mgr) (λ a.
            Runs-bind _ _ (Runs-setup_reconcilers mgr) (λ b.
              Runs-bind _ _ (Runs-setup_webhooks mgr)
                (λ c. Runs-exit_on_err _ (start-Leaves mgr) (Nothing-ensures _)))))))

  Runs-process : Runs (Have f Q R []) (process f) Q (λ a s. Unit)
  unfolding process
  Runs-process = Runs-bind _ _ Runs-init (λ a. Runs-main)

  -- Let `Register` add the types of its objects to a scheme builder, and `AddToScheme` of a builder
  -- make its types known to the scheme; let every call but `Start` keep a predicate of the state,
  -- what is known, and what is registered with each manager; and let `Start` keep the predicate
  -- where the four types of api/v1alpha1 are known, and the two checks, the three controllers and
  -- the webhook are registered with the manager that it starts. Then the process keeps the
  -- predicate, however it ends: it starts no manager before all this has been done.
  pub process-Keeps : (s : f.State) → Q s → Q (process f s).1
  process-Keeps s h = Runs-process.leaves s (record { holds = h; established = tt })
