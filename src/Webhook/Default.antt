-- ===== src/Webhook/Default.antt =====
-- `RKE2ConfigWebhook.Default`. The configuration that it changes in place is its result; what an
-- error leaves of it is not admitted.
use turtles_etcd_restore.Base.{String, Option, none, some, [], ◌∷◌, ◌==◌, if◌then◌else◌}
use turtles_etcd_restore.Go.Text.{◌<>◌, join}
use turtles_etcd_restore.Go.Bytes.{Bytes}
use turtles_etcd_restore.Go.Outcome.{
  M, Outcome, ok, err, panic, nil, cons, bad_request, pure, raise, lift, call, ◌>>=◌, ◌>>◌,
}
use turtles_etcd_restore.Unstructured.{lookup, as_text}
use turtles_etcd_restore.Webhook.Objects.{Rke2Config}
use turtles_etcd_restore.Webhook.Client.{WebhookClient}
use turtles_etcd_restore.Webhook.Resources.{
  create_secret_plan_resources, ensure_service_account_secret_populated,
}
use turtles_etcd_restore.Webhook.Files.{
  create_connect_info_json, create_system_agent_install_script, create_config_yaml,
  add_post_install_commands,
}

-- `runtime.Object`: a configuration, or an object of another type, whose name `%T` prints.
pub data RuntimeObject : Type 0 where
  rke2_config : Rke2Config → RuntimeObject
  of_type : String → RuntimeObject

-- `planSecretName`
unfoldable pub plan_name : Rke2Config → String
plan_name config = join (config.name ∷ "rke2config" ∷ "plan" ∷ []) "-"

abbrev pub refused {ℓ} : {A : Type ℓ} → String → Outcome A → Outcome A
refused message (ok a) = ok a
refused message (err e) = err (bad_request message (cons e nil))
refused message panic = panic

-- `if err != nil { return apierrors.NewBadRequest(fmt.Sprintf("message: %s", err)) }`
unfoldable pub or_bad_request : {S A : Type 0} → String → M S A → M S A
or_bad_request message m s = let (r, s') = m s in (refused message r, s')

-- `v, ok := setting.Object["value"].(string)`, whose failure is printed with a nil error.
abbrev pub setting_value : String → Option String → Outcome String
setting_value message none = err (bad_request (message <> "%!s(<nil>)") nil)
setting_value message (some value) = ok value

module _ (c : WebhookClient) (connect_info_json : String → String → Bytes → Bytes) where
  -- The settings `server-url` and `cacerts`.
  unfoldable pub read_settings : M c.State (String × String)
  unfolding or_bad_request
  read_settings = do
    url_setting ←
        or_bad_request "failed to get server url setting: " (call (c.get_setting "server-url"))
    server_url ←
        lift (
          setting_value "failed to get server url setting: " (as_text (lookup "value" url_setting)))
    if server_url == "" then raise (bad_request "server url setting is empty" nil) else do
      ca_setting ← or_bad_request "failed to get ca setting: " (call (c.get_setting "cacerts"))
      pem ← lift (setting_value "failed to get ca setting: " (as_text (lookup "value" ca_setting)))
      pure (server_url, pem)

  -- What `Default` adds to the configuration.
  unfoldable pub add_files : Rke2Config → String → String → Bytes → M c.State Rke2Config
  unfolding or_bad_request create_connect_info_json create_system_agent_install_script
      create_config_yaml add_post_install_commands
  add_files config server_url pem token = do
    with_connect_info ← or_bad_request "failed to create connect info json: " (
        create_connect_info_json c connect_info_json config (plan_name config) server_url pem token)
    with_script ←
        or_bad_request "failed to create system agent install script: "
          (create_system_agent_install_script c server_url with_connect_info)
    pure (add_post_install_commands (create_config_yaml with_script))

  -- `Default`
  unfoldable pub default : RuntimeObject → M c.State Rke2Config
  unfolding create_secret_plan_resources ensure_service_account_secret_populated read_settings
      add_files plan_name
  default (of_type name) = raise (bad_request ("expected a RKE2Config but got a " <> name) nil)
  default (rke2_config config) = do
    or_bad_request "failed to create secret plan resources: "
        (create_secret_plan_resources c (plan_name config) config)
    token ←
        or_bad_request "failed to ensure service account secret is populated: "
          (ensure_service_account_secret_populated c (plan_name config))
    settings ← read_settings
    add_files config settings.0 settings.1 token
