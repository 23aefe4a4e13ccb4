-- ===== src/Webhook/Created.antt =====
-- The objects that `createSecretPlanResources` leaves on the API server.
use turtles_etcd_restore.Base.{String, ◌≡◌, refl, List, [], ◌∷◌, All, Option, none, some}
use turtles_etcd_restore.Go.Outcome.{
  Outcome, ok, Reply, done, fail, ApiError, already_exists, not_found, conflict, other,
}
use turtles_etcd_restore.Go.Rules.{
  Keeps, Keeps-pure, Keeps-bind, Ensures, Ensures-pure, Ensures-bind,
}
use turtles_etcd_restore.Webhook.Objects.{
  Object, Rke2Config, service_account, secret, role, role_binding,
}
use turtles_etcd_restore.Go.Text.{◌<>◌}
use turtles_etcd_restore.Webhook.Client.{WebhookClient}
use turtles_etcd_restore.Webhook.Resources.{
  plan_resources, created_or_exists, create_if_absent, failed_to_create, create_all,
  create_secret_plan_resources,
}

-- The five objects that a configuration is to have, for the name of its plan secret: the account of
-- the agent, the secret for its plans, a role that may only read and update this secret, the
-- binding of the account to the role, and the secret for the account's token.
abbrev pub five_objects : String → Rke2Config → List Object
five_objects name config =
    service_account (record {
      name = name;
      namespace = config.namespace;
      labels =
          ("cluster-api.cattle.io/rke2config-name", config.name)
          ∷ ("cluster-api.cattle.io/plan-secret-name", name)
          ∷ [];
      annotations = [];
    })
    ∷ secret
        (record {
          name = name;
          namespace = config.namespace;
          labels = ("cluster-api.cattle.io/rke2config-name", config.name) ∷ [];
          annotations = [];
        })
        "cluster-api.cattle.io/machine-plan" none
    ∷ role (record { name = name; namespace = config.namespace; labels = []; annotations = [] })
        (record {
          verbs = "watch" ∷ "get" ∷ "update" ∷ "list" ∷ [];
          api_groups = "" ∷ [];
          resources = "secrets" ∷ [];
          resource_names = name ∷ [];
        }
          ∷ [])
    ∷ role_binding
        (record { name = name; namespace = config.namespace; labels = []; annotations = [] })
        ("ServiceAccount", name, config.namespace) ("rbac.authorization.k8s.io", "Role", name)
    ∷ secret
        (record {
          name = name <> "-token";
          namespace = config.namespace;
          labels = ("cluster-api.cattle.io/service-account.name", name) ∷ [];
          annotations = ("kubernetes.io/service-account.name", name) ∷ [];
        })
        "kubernetes.io/service-account-token" none
    ∷ []

abbrev pub Held : Option Object → Type 0
Held o = (x : Object) × (o ≡ some x)

-- What the webhook relies on of the API server. `object_at` is what it holds of the kind,
-- namespace and name of an object. A creation that succeeds leaves the object, one that is told
-- that the object exists finds one there, and nothing is deleted meanwhile.
pub record Rely (c : WebhookClient) : Type 0 where
  pub object_at : c.State → Object → Option Object
  pub create_done :
      (object : Object) (s : c.State)
      → (c.create object s).0 ≡ done tt
      → object_at (c.create object s).1 object ≡ some object
  pub create_exists :
      (object : Object) (s : c.State)
      → (c.create object s).0 ≡ fail already_exists
      → Held (object_at (c.create object s).1 object)
  pub create_keeps :
      (object : Object) (s : c.State) (x : Object)
      → Held (object_at s x)
      → Held (object_at (c.create object s).1 x)

module _ (c : WebhookClient) (L : Rely c) where
  abbrev pub HeldAt : Object → c.State → Type 0
  HeldAt x s = Held (L.object_at s x)

  pub create_if_absent-Keeps :
      (failed : ApiError → Outcome (Unit {0})) (object x : Object)
      → Keeps (HeldAt x) (create_if_absent c failed object)
  unfolding create_if_absent
  create_if_absent-Keeps failed object x = record { at = λ s h. L.create_keeps object s x h }

  create_all-Keeps : (objects : List Object) (x : Object) → Keeps (HeldAt x) (create_all c objects)
  unfolding create_all
  create_all-Keeps [] x = Keeps-pure tt
  create_all-Keeps (object ∷ rest) x =
      Keeps-bind _ _ (create_if_absent-Keeps (failed_to_create c object) object x)
        (λ _. create_all-Keeps rest x)

  answered-Held :
      (object : Object) (s : c.State) (r : Reply (Unit {0}))
      → (c.create object s).0 ≡ r
      → created_or_exists (failed_to_create c object) r ≡ ok tt
      → HeldAt object (c.create object s).1
  answered-Held object s (done tt) e h = (object, L.create_done object s e)
  answered-Held object s (fail already_exists) e h = L.create_exists object s e
  answered-Held object s (fail not_found) e h = cc
  answered-Held object s (fail conflict) e h = cc
  answered-Held object s (fail (other x)) e h = cc

  create_if_absent-Held :
      (object : Object)
      → Ensures
          (λ _. Unit)
          (create_if_absent c (failed_to_create c object) object)
          (λ _ s. HeldAt object s)
  unfolding create_if_absent
  create_if_absent-Held object = record { at = λ s h a e. answered-Held object s _ refl (cc) }

  create_all-Held :
      (objects : List Object)
      → Ensures (λ _. Unit) (create_all c objects) (λ _ s. All (λ x. HeldAt x s) objects)
  unfolding create_all
  create_all-Held [] = Ensures-pure tt (λ _ _. tt)
  create_all-Held (object ∷ rest) =
      Ensures-bind {R = λ _ s. HeldAt object s} _ _ (create_if_absent-Held object) (λ _. record {
        at = λ s h a e. ((create_all-Keeps rest object).at s h, (create_all-Held rest).at s tt a e);
      })

  -- Let the answers of the API server be as the webhook relies on. If `createSecretPlanResources`
  -- succeeds, then afterwards the server holds an object for each of the five: the service account,
  -- the plan secret, the role, its binding and the secret of the token.
  pub create_secret_plan_resources-Held :
      (name : String) (config : Rke2Config) (s : c.State)
      → (create_secret_plan_resources c name config s).0 ≡ ok tt
      → All
          (λ x. Held (L.object_at (create_secret_plan_resources c name config s).1 x))
          (five_objects name config)
  unfolding create_secret_plan_resources plan_resources
  create_secret_plan_resources-Held name config s e =
      (create_all-Held (plan_resources name config)).at s tt tt e
