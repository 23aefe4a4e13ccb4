-- ===== src/Webhook/Resources.antt =====
-- `createSecretPlanResources` and `ensureServiceAccountSecretPopulated`.
use turtles_etcd_restore.Base.{String, Option, none, List, [], ◌∷◌, if◌then◌else◌}
use turtles_etcd_restore.Go.Text.{◌<>◌}
use turtles_etcd_restore.Go.Bytes.{Bytes, ByteMap, entry}
use turtles_etcd_restore.Go.Outcome.{
  M, Outcome, ok, err, Reply, done, fail, ApiError, api, text, wrap, is_already_exists, pure, lift,
  call, on_err, ◌>>=◌, ◌>>◌,
}
use turtles_etcd_restore.Webhook.Objects.{
  Rke2Config, ObjectMeta, Object, service_account, secret, role, role_binding,
}
use turtles_etcd_restore.Webhook.Client.{WebhookClient}

abbrev pub rke2_config_name_label : String
rke2_config_name_label = "cluster-api.cattle.io/rke2config-name"

abbrev pub plan_secret_name_label : String
plan_secret_name_label = "cluster-api.cattle.io/plan-secret-name"

abbrev pub service_account_secret_label : String
service_account_secret_label = "cluster-api.cattle.io/service-account.name"

abbrev pub secret_type_machine_plan : String
secret_type_machine_plan = "cluster-api.cattle.io/machine-plan"

-- `corev1.ServiceAccountTokenKey`
abbrev pub service_account_token_key : String
service_account_token_key = "token"

abbrev pub meta : String → String → List (String × String) → List (String × String) → ObjectMeta
meta name namespace labels annotations = record {
  name = name;
  namespace = namespace;
  labels = labels;
  annotations = annotations;
}

-- `sa`
abbrev pub plan_service_account : String → Rke2Config → Object
plan_service_account plan_secret_name config = service_account (
    meta plan_secret_name config.namespace
      ((rke2_config_name_label, config.name) ∷ (plan_secret_name_label, plan_secret_name) ∷ []) [])

-- `secret`
abbrev pub plan_secret : String → Rke2Config → Object
plan_secret plan_secret_name config =
    secret (meta plan_secret_name config.namespace ((rke2_config_name_label, config.name) ∷ []) [])
      secret_type_machine_plan none

-- `role`
abbrev pub plan_role : String → Rke2Config → Object
plan_role plan_secret_name config = role (meta plan_secret_name config.namespace [] []) (
    record {
      verbs = "watch" ∷ "get" ∷ "update" ∷ "list" ∷ [];
      api_groups = "" ∷ [];
      resources = "secrets" ∷ [];
      resource_names = plan_secret_name ∷ [];
    }
    ∷ [])

-- `roleBinding`
abbrev pub plan_role_binding : String → Rke2Config → Object
plan_role_binding plan_secret_name config =
    role_binding (meta plan_secret_name config.namespace [] [])
      ("ServiceAccount", plan_secret_name, config.namespace)
      ("rbac.authorization.k8s.io", "Role", plan_secret_name)

-- `saSecret`
abbrev pub token_secret : String → Rke2Config → Object
token_secret plan_secret_name config =
    secret
      (meta (plan_secret_name <> "-token") config.namespace
        ((service_account_secret_label, plan_secret_name) ∷ [])
        (("kubernetes.io/service-account.name", plan_secret_name) ∷ []))
      "kubernetes.io/service-account-token" none

-- The objects of the loop in `createSecretPlanResources`, in its order.
unfoldable pub plan_resources : String → Rke2Config → List Object
plan_resources plan_secret_name config =
    plan_service_account plan_secret_name config
    ∷ plan_secret plan_secret_name config
    ∷ plan_role plan_secret_name config
    ∷ plan_role_binding plan_secret_name config
    ∷ token_secret plan_secret_name config
    ∷ []

-- An answer of `Create`, where an object that exists already is no error.
abbrev pub created_or_exists :
    (ApiError → Outcome (Unit {0})) → Reply (Unit {0}) → Outcome (Unit {0})
created_or_exists failed (done _) = ok tt
created_or_exists failed (fail e) = if is_already_exists e then ok tt else failed e

-- `len(saSecret.Data[corev1.ServiceAccountTokenKey]) == 0`
abbrev pub populated : String → Bytes → Outcome Bytes
populated plan_secret_name [] = err (text ("secret " <> (plan_secret_name <> " not yet populated")))
populated plan_secret_name (b ∷ bs) = ok (b ∷ bs)

-- What a look at the list of secrets finds: exactly one, whose token is not empty.
unfoldable pub token_of : String → List (Option ByteMap) → Outcome Bytes
token_of plan_secret_name [] =
    err (
      text
        ("secret for " <> (plan_secret_name <> " doesn't exist, or more than one secret exists")))
token_of plan_secret_name (content ∷ []) =
    populated plan_secret_name (entry content service_account_token_key)
token_of plan_secret_name (_ ∷ _ ∷ _) =
    err (
      text
        ("secret for " <> (plan_secret_name <> " doesn't exist, or more than one secret exists")))

module _ (c : WebhookClient) where
  -- `r.Create(ctx, obj)`, where an object that exists already is no error.
  unfoldable pub create_if_absent : (ApiError → Outcome (Unit {0})) → Object → M c.State Unit
  create_if_absent failed object s =
      let (answer, s') = c.create object s in (created_or_exists failed answer, s')

  -- The error of the loop in `createSecretPlanResources`.
  abbrev pub failed_to_create : Object → ApiError → Outcome (Unit {0})
  failed_to_create object e = err (wrap ("failed to create " <> c.kind_text object) (api e))

  -- The loop of `createSecretPlanResources`.
  unfoldable pub create_all : List Object → M c.State Unit
  unfolding create_if_absent
  create_all [] = pure tt
  create_all (object ∷ rest) = do create_if_absent (failed_to_create object) object; create_all rest

  -- `createSecretPlanResources`
  unfoldable pub create_secret_plan_resources : String → Rke2Config → M c.State Unit
  unfolding create_all plan_resources
  create_secret_plan_resources plan_secret_name config =
      create_all (plan_resources plan_secret_name config)

  -- The function that `ensureServiceAccountSecretPopulated` retries.
  unfoldable pub read_token : String → M c.State Bytes
  unfolding token_of
  read_token plan_secret_name = do
    secrets ←
        on_err "failed to list secrets"
          (call (c.list_secrets service_account_secret_label plan_secret_name))
    lift (token_of plan_secret_name secrets)

  -- `ensureServiceAccountSecretPopulated`
  unfoldable pub ensure_service_account_secret_populated : String → M c.State Bytes
  unfolding read_token
  ensure_service_account_secret_populated plan_secret_name = c.retry (read_token plan_secret_name)
