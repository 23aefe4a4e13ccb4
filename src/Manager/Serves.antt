-- ===== src/Manager/Serves.antt =====
-- Where the set-up succeeds, the process ends as its manager does.
use turtles_etcd_restore.Base.{◌≡◌, ap, sym, String, List, [], ◌∷◌}
use mathlib.Core.Path.{subst}
use turtles_etcd_restore.Go.Outcome.{Outcome, ok, err, panic, Error}
use turtles_etcd_restore.Manager.Flags.{Flag}
use turtles_etcd_restore.Manager.Framework.{
  Framework, SchemeGroup, ForeignGroup, Watched, ManagerOptions, Run, goes_on, exits, or_exit,
  exit_on_err,
}
use turtles_etcd_restore.Manager.Rules.{
  Goes, Succeeds, Succeeds-pure, Succeeds-on_err, Succeeds-bind, Goes-exit_on_err, Goes-must,
  Goes-return, Goes-bind, Ends-bind,
}
use turtles_etcd_restore.Manager.Controllers.{
  AnyHandler, setup_snapshot_sync, setup_machine_backup, setup_snapshot, setup_webhook,
}
use turtles_etcd_restore.Manager.Setup.{setup_checks, setup_reconcilers, setup_webhooks}
use turtles_etcd_restore.Manager.Main.{add_group, add_groups, scheme, init, main, process}

-- Every call but `Start` succeeds.
pub record SetupSucceeds (f : Framework) : Type 0 where
  pub add_to_scheme : (group : ForeignGroup) → Succeeds (f.add_to_scheme group)
  pub add_built_to_scheme : (x : f.builders.Builder) → Succeeds (f.add_built_to_scheme x)
  pub parse : (flags : List Flag) → Goes (f.parse flags)
  pub get_config : Goes f.get_config
  pub new_manager :
      (config : f.Config) (options : ManagerOptions) → Succeeds (f.new_manager config options)
  pub add_readyz_check :
      (mgr : f.Manager) (name : String) (check : f.Checker)
      → Succeeds (f.add_readyz_check mgr name check)
  pub add_healthz_check :
      (mgr : f.Manager) (name : String) (check : f.Checker)
      → Succeeds (f.add_healthz_check mgr name check)
  pub new_client :
      (config : f.Config) (http : f.HttpClient) (cache : f.Cache)
      → Succeeds (f.new_client config http cache)
  pub new_cluster_cache_tracker :
      (mgr : f.Manager) (client : f.ApiClient) (name : String)
      → Succeeds (f.new_cluster_cache_tracker mgr client name)
  pub build : (mgr : f.Manager) (kind : Watched) (r : AnyHandler f) → Succeeds (f.build mgr kind r)
  pub complete :
      (mgr : f.Manager) (kind : Watched) (r : AnyHandler f) → Succeeds (f.complete mgr kind r)
  pub complete_webhook :
      (mgr : f.Manager) (kind : Watched) (r : AnyHandler f)
      → Succeeds (f.complete_webhook mgr kind r)

-- How the process is to end where `Start` comes back with this.
pub data EndsWith : Outcome (Unit {0}) → Run (Unit {0}) → Type 0 where
  normally : EndsWith (ok tt) (goes_on tt)
  on_error : (e : Error) → EndsWith (err e) (exits 1)
  on_panic : EndsWith panic (exits 2)

ended : (r : Outcome (Unit {0})) → EndsWith r (or_exit r)
ended (ok tt) = normally
ended (err e) = on_error e
ended panic = on_panic

module _ (f : Framework) (k : SetupSucceeds f) where
  setup_snapshot_sync-Succeeds :
      (client : f.ApiClient) (tracker : f.Tracker) (mgr : f.Manager)
      → Succeeds (setup_snapshot_sync f client tracker mgr)
  unfolding setup_snapshot_sync
  setup_snapshot_sync-Succeeds client tracker mgr s =
      Succeeds-bind _ _ (Succeeds-on_err _ _ (k.build mgr Watched.cluster _)) (λ c. Succeeds-pure _)
        s

  Goes-setup_checks : (mgr : f.Manager) → Goes (setup_checks f mgr)
  unfolding setup_checks
  Goes-setup_checks mgr =
      Goes-bind _ _ (Goes-exit_on_err _ (k.add_readyz_check mgr _ _))
        (λ a. Goes-exit_on_err _ (k.add_healthz_check mgr _ _))

  Goes-setup_reconcilers : (mgr : f.Manager) → Goes (setup_reconcilers f mgr)
  unfolding setup_reconcilers setup_machine_backup setup_snapshot
  Goes-setup_reconcilers mgr = Goes-bind _ _ (Goes-exit_on_err _ (k.new_client _ _ _)) (λ client.
      Goes-bind _ _ (Goes-exit_on_err _ (k.new_cluster_cache_tracker mgr client _)) (λ tracker.
        Goes-bind _ _ (Goes-exit_on_err _ (setup_snapshot_sync-Succeeds _ tracker mgr)) (λ r.
          Goes-bind _ _ (Goes-exit_on_err _ (k.complete mgr _ _))
            (λ a. Goes-exit_on_err _ (k.complete mgr _ _)))))

  Goes-setup_webhooks : (mgr : f.Manager) → Goes (setup_webhooks f mgr)
  unfolding setup_webhooks setup_webhook
  Goes-setup_webhooks mgr = Goes-exit_on_err _ (k.complete_webhook mgr _ _)

  add_group-Succeeds : (group : SchemeGroup) → Succeeds (add_group f group)
  unfolding add_group
  add_group-Succeeds (SchemeGroup.foreign group) = k.add_to_scheme group
  add_group-Succeeds SchemeGroup.turtles_capi = k.add_built_to_scheme _

  Goes-add_groups : (groups : List SchemeGroup) → Goes (add_groups f groups)
  Goes-add_groups [] = Goes-return tt
  Goes-add_groups (group ∷ rest) =
      Goes-bind _ _ (Goes-must _ (add_group-Succeeds group)) (λ a. Goes-add_groups rest)

  ends_as_start :
      (r : Outcome Unit)
      → ((mgr : f.Manager) (s : f.State) → (f.start mgr s).0 ≡ r)
      → (s : f.State) → (process f s).0 ≡ or_exit r
  unfolding process init main exit_on_err
  ends_as_start r starts = Ends-bind _ _ (Goes-add_groups scheme) (λ a.
      Ends-bind _ _ (k.parse _) (λ given. Ends-bind _ _ k.get_config (λ config.
        Ends-bind _ _ (Goes-exit_on_err (f.new_manager config _) (k.new_manager config _)) (λ mgr.
          Ends-bind _ _ (Goes-setup_checks mgr) (λ b.
            Ends-bind _ _ (Goes-setup_reconcilers mgr) (λ c.
              Ends-bind _ _ (Goes-setup_webhooks mgr) (λ d. λ s. ap or_exit (starts mgr s))))))))

  -- Where every call but `Start` succeeds, the process ends as `Start` does: if that answers
  -- without an error, so does the process, on an error it exits with code 1, and on a panic with
  -- code 2.
  pub process_ends :
      (r : Outcome Unit)
      → ((mgr : f.Manager) (s : f.State) → (f.start mgr s).0 ≡ r)
      → (s : f.State) → EndsWith r (process f s).0
  process_ends r starts s = subst (EndsWith r) (sym (ends_as_start r starts s)) (ended r)
