-- ===== src/Manager/Registry.antt =====
-- What the process relies on when it starts a manager: the types of api/v1alpha1 that the scheme
-- knows, and what is registered with the manager.
use turtles_etcd_restore.Base.{String, List}
use turtles_etcd_restore.Api.Register.{ObjectType, Registers}
use turtles_etcd_restore.Go.Outcome.{M}
use turtles_etcd_restore.Go.Rules.{Keeps, Leaves, Ensures}
use turtles_etcd_restore.Manager.Flags.{Flag}
use turtles_etcd_restore.Manager.Framework.{
  Framework, ForeignGroup, Watched, ManagerOptions, Process,
}
use turtles_etcd_restore.Manager.Controllers.{AnyHandler}

-- What is registered with a manager: the two checks, and the handler of a kind.
pub data Part : Type 0 where
  readyz healthz : Part
  handler : Watched → Part

-- The scheme knows a type, or a part is registered with a manager.
pub data Fact (Manager : Type 0) : Type 0 where
  known : ObjectType → Fact Manager
  registered : Manager → Part → Fact Manager

module _ (f : Framework) (Q : f.State → Type 0) (R : Fact f.Manager → f.State → Type 0) where
  -- A call that keeps `Q`, and whatever is known and registered.
  pub record Inert {A : Type 0} (m : M f.State A) : Type 0 where
    pub keeps : Keeps Q m
    pub stays : (fact : Fact f.Manager) → Keeps (R fact) m

  -- The same of a piece of the process.
  pub record Calm {A : Type 0} (m : Process f.State A) : Type 0 where
    pub keeps : (s : f.State) → Q s → Q (m s).1
    pub stays : (fact : Fact f.Manager) (s : f.State) → R fact s → R fact (m s).1

  -- A call that establishes a fact where it succeeds, and keeps the others.
  abbrev pub Establishes : {A : Type 0} → Fact f.Manager → M f.State A → Type 0
  Establishes fact m = Inert m × Ensures (λ s. Unit) m (λ a. R fact)

  -- A predicate of the state, what it is that a type is known to the scheme and that a part is
  -- registered with a manager, and which types a scheme builder has: the calls keep the predicate
  -- and the facts, and a success establishes its own. To start a manager keeps the predicate where
  -- all types are known and all six parts are registered with the manager.
  pub record Registry (Has : f.builders.Builder → ObjectType → Type 0) : Type 0 where
    pub registers : Registers f.builders Has
    pub add_to_scheme : (group : ForeignGroup) → Inert (f.add_to_scheme group)
    pub add_built_to_scheme :
        (x : f.builders.Builder)
        → Inert (f.add_built_to_scheme x)
          × ((t : ObjectType)
              → Has x t
              → Ensures (λ s. Unit) (f.add_built_to_scheme x) (λ a. R (known t)))
    pub parse : (flags : List Flag) → Calm (f.parse flags)
    pub get_config : Calm f.get_config
    pub new_manager :
        (config : f.Config) (options : ManagerOptions) → Inert (f.new_manager config options)
    pub add_readyz_check :
        (mgr : f.Manager) (name : String) (check : f.Checker)
        → Establishes (registered mgr readyz) (f.add_readyz_check mgr name check)
    pub add_healthz_check :
        (mgr : f.Manager) (name : String) (check : f.Checker)
        → Establishes (registered mgr healthz) (f.add_healthz_check mgr name check)
    pub new_client :
        (config : f.Config) (http : f.HttpClient) (cache : f.Cache)
        → Inert (f.new_client config http cache)
    pub new_cluster_cache_tracker :
        (mgr : f.Manager) (client : f.ApiClient) (name : String)
        → Inert (f.new_cluster_cache_tracker mgr client name)
    pub build :
        (mgr : f.Manager) (kind : Watched) (r : AnyHandler f)
        → Establishes (registered mgr (handler kind)) (f.build mgr kind r)
    pub complete :
        (mgr : f.Manager) (kind : Watched) (r : AnyHandler f)
        → Establishes (registered mgr (handler kind)) (f.complete mgr kind r)
    pub complete_webhook :
        (mgr : f.Manager) (kind : Watched) (r : AnyHandler f)
        → Establishes (registered mgr (handler kind)) (f.complete_webhook mgr kind r)
    pub start :
        (mgr : f.Manager)
        → Leaves
            (λ s.
              Q s
              × ((t : ObjectType) → R (known t) s)
              × ((part : Part) → R (registered mgr part) s))
            (f.start mgr)
            Q
