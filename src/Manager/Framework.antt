-- ===== src/Manager/Framework.antt =====
-- What cmd/main.go uses of controller-runtime, Cluster API and pflag, and a process that may exit.
use turtles_etcd_restore.Base.{ℕ, String, Bool, List, Option}
use turtles_etcd_restore.Go.Outcome.{M, Outcome, ok, err, panic}
use turtles_etcd_restore.Api.Register.{SchemeBuilders}
use turtles_etcd_restore.Manager.Flags.{Flag, Settings, ℤ}

-- The API groups of other projects.
pub data ForeignGroup : Type 0 where
  client_go cluster_api rke2_bootstrap : ForeignGroup

-- The API groups that are added to the scheme: those of other projects, and the one of
-- api/v1alpha1.
pub data SchemeGroup : Type 0 where
  foreign : ForeignGroup → SchemeGroup
  turtles_capi : SchemeGroup

-- The kinds that the manager's client reads without a cache.
pub data Uncached : Type 0 where
  config_map secret : Uncached

-- `client.Options` of the manager, with its `DisableFor`.
pub record ClientOptions : Type 0 where
  pub disable_for : List Uncached

-- `ctrl.Options`
pub record ManagerOptions : Type 0 where
  pub scheme : List SchemeGroup
  pub metrics_bind_address : String
  pub leader_election : Bool
  pub leader_election_id : String
  pub leader_election_resource_lock : String
  pub lease_duration : ℤ
  pub renew_deadline : ℤ
  pub retry_period : ℤ
  pub client : ClientOptions
  pub sync_period : ℤ
  pub health_probe_bind_address : String
  pub webhook_port : ℤ
  pub webhook_cert_dir : String

-- The kinds that a controller or a webhook is registered for.
pub data Watched : Type 0 where
  cluster etcd_machine_backup etcd_snapshot_restore rke2_config : Watched

-- The reconcilers and the webhook, with the fields that are set when they are made.
pub data Handler (ApiClient Tracker Controller : Type 0) : Type 0 where
  etcd_snapshot_sync_reconciler :
      ApiClient → Tracker → Option Controller → Handler ApiClient Tracker Controller
  etcd_machine_backup_reconciler : ApiClient → Handler ApiClient Tracker Controller
  etcd_snapshot_reconciler : ApiClient → Handler ApiClient Tracker Controller
  rke2_config_webhook : ApiClient → Handler ApiClient Tracker Controller

-- What a piece of the process comes to: it goes on, or the process ends with an exit code.
pub data Run {ℓ} (A : Type ℓ) : Type ℓ where
  goes_on : A → Run A
  exits : ℕ → Run A

abbrev pub Process : Type 0 → Type 0 → Type 0
Process S A = S → Run A × S

-- The calls, each of which may change the state outside the process and fail. `parse` is the
-- registration of the flags and `pflag.Parse`, and answers what the variables hold afterwards;
-- `get_config` is `GetConfigOrDie`. These two end the process themselves.
pub record Framework : Type 1 where
  pub State : Type 0
  pub Config : Type 0
  pub Manager : Type 0
  pub HttpClient : Type 0
  pub Cache : Type 0
  pub ApiClient : Type 0
  pub Tracker : Type 0
  pub Checker : Type 0
  pub Controller : Type 0
  pub leases_resource_lock : String
  pub builders : SchemeBuilders
  -- `AddToScheme` of another project's group, and of a scheme builder
  pub add_to_scheme : ForeignGroup → M State Unit
  pub add_built_to_scheme : builders.Builder → M State Unit
  pub parse : List Flag → Process State Settings
  pub get_config : Process State Config
  pub new_manager : Config → ManagerOptions → M State Manager
  -- The getters of the manager
  pub started_checker : Manager → Checker
  pub manager_config : Manager → Config
  pub http_client : Manager → HttpClient
  pub cache : Manager → Cache
  pub client : Manager → ApiClient
  pub add_readyz_check : Manager → String → Checker → M State Unit
  pub add_healthz_check : Manager → String → Checker → M State Unit
  -- `client.New`
  pub new_client : Config → HttpClient → Cache → M State ApiClient
  -- `remote.NewClusterCacheTracker`, with the client and the controller's name
  pub new_cluster_cache_tracker : Manager → ApiClient → String → M State Tracker
  -- `ctrl.NewControllerManagedBy(mgr).For(kind)` with `Build` and with `Complete`
  pub build : Manager → Watched → Handler ApiClient Tracker Controller → M State Controller
  pub complete : Manager → Watched → Handler ApiClient Tracker Controller → M State Unit
  -- `ctrl.NewWebhookManagedBy(mgr).For(kind).WithDefaulter(r).Complete()`
  pub complete_webhook : Manager → Watched → Handler ApiClient Tracker Controller → M State Unit
  pub start : Manager → M State Unit

-- A panic that nothing recovers from ends a Go process with exit code 2.
abbrev pub or_exit {ℓ} : {A : Type ℓ} → Outcome A → Run A
or_exit (ok a) = goes_on a
or_exit (err e) = exits 1
or_exit panic = exits 2

-- `utilruntime.Must`, which panics on an error.
abbrev pub or_panic {ℓ} : {A : Type ℓ} → Outcome A → Run A
or_panic (ok a) = goes_on a
or_panic _ = exits 2

module _ {S A : Type 0} where
  unfoldable pub return : A → Process S A
  return a s = (goes_on a, s)

  -- `if err != nil { setupLog.Error(err, ...); os.Exit(1) }`
  unfoldable pub exit_on_err : M S A → Process S A
  exit_on_err m s = let (r, s') = m s in (or_exit r, s')

  unfoldable pub must : M S A → Process S A
  must m s = let (r, s') = m s in (or_panic r, s')

module _ {S A B : Type 0} where
  abbrev pub after : Run A → (A → Process S B) → Process S B
  after (goes_on a) f s = f a s
  after (exits code) f s = (exits code, s)

  infixl 5 ◌>>=◌ ◌>>◌
  -- Opening this opens `return`, `exit_on_err` and `must` too.
  unfoldable pub ◌>>=◌ : Process S A → (A → Process S B) → Process S B
  unfolding return exit_on_err must
  ◌>>=◌ m f s = let (r, s') = m s in after r f s'

  abbrev pub ◌>>◌ : Process S A → Process S B → Process S B
  m >> k = m >>= λ _. k
