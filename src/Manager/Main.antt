-- ===== src/Manager/Main.antt =====
-- `init` and `main` of cmd/main.go. The context that a signal ends, and logging, are left out.
use turtles_etcd_restore.Base.{List, [], ◌∷◌}
use turtles_etcd_restore.Go.Outcome.{M}
use turtles_etcd_restore.Api.Register.{scheme_builder}
use turtles_etcd_restore.Manager.Flags.{Settings, init_flags}
use turtles_etcd_restore.Manager.Framework.{
  Framework, SchemeGroup, ForeignGroup, Uncached, ManagerOptions, Process, exit_on_err, must,
  return, ◌>>=◌, ◌>>◌,
}
use turtles_etcd_restore.Manager.Setup.{setup_checks, setup_reconcilers, setup_webhooks}

-- The groups of the scheme, in the order of `init`.
abbrev pub scheme : List SchemeGroup
scheme =
    SchemeGroup.foreign ForeignGroup.client_go
    ∷ SchemeGroup.foreign ForeignGroup.cluster_api
    ∷ SchemeGroup.turtles_capi
    ∷ SchemeGroup.foreign ForeignGroup.rke2_bootstrap
    ∷ []

module _ (f : Framework) where
  -- `AddToScheme` of a group; that of api/v1alpha1 is the one of its `SchemeBuilder`.
  unfoldable pub add_group : SchemeGroup → M f.State Unit
  unfolding scheme_builder
  add_group (SchemeGroup.foreign group) = f.add_to_scheme group
  add_group SchemeGroup.turtles_capi = f.add_built_to_scheme (scheme_builder f.builders)

  -- The calls of `init`, for a list of groups.
  abbrev pub add_groups : List SchemeGroup → Process f.State Unit
  add_groups [] = return tt
  add_groups (group ∷ rest) = must (add_group group) >> add_groups rest

  -- The options that `main` gives to `ctrl.NewManager`.
  abbrev pub manager_options : Settings → ManagerOptions
  manager_options s = record {
    scheme = scheme;
    metrics_bind_address = s.metrics_bind_addr;
    leader_election = s.enable_leader_election;
    leader_election_id = "controller-leader-election-etcd-restore";
    leader_election_resource_lock = f.leases_resource_lock;
    lease_duration = s.leader_election_lease_duration;
    renew_deadline = s.leader_election_renew_deadline;
    retry_period = s.leader_election_retry_period;
    client = record { disable_for = Uncached.config_map ∷ Uncached.secret ∷ [] };
    sync_period = s.sync_period;
    health_probe_bind_address = s.health_addr;
    webhook_port = s.webhook_port;
    webhook_cert_dir = s.webhook_cert_dir;
  }

  -- `init`
  unfoldable pub init : Process f.State Unit
  init = add_groups scheme

  -- `main`
  unfoldable pub main : Process f.State Unit
  unfolding init_flags setup_checks setup_reconcilers setup_webhooks
  main = do
    settings ← f.parse init_flags
    config ← f.get_config
    mgr ← exit_on_err (f.new_manager config (manager_options settings))
    setup_checks f mgr
    setup_reconcilers f mgr
    setup_webhooks f mgr
    exit_on_err (f.start mgr)

  -- The process: Go runs `init` before `main`.
  unfoldable pub process : Process f.State Unit
  unfolding init main
  process = init >> main
