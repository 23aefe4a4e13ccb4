-- ===== src/Webhook/Files.antt =====
-- `createConnectInfoJson`, `createSystemAgentInstallScript`, `createConfigYAML` and
-- `addPostInstallCommands`: what the webhook adds to the configuration.
use turtles_etcd_restore.Base.{
  String, Bool, false, none, some, List, [], ◌∷◌, ◌++◌, ◌==◌, ◌||◌, if◌then◌else◌, ◌⊎◌, inl, inr,
}
use turtles_etcd_restore.Go.Text.{◌<>◌}
use turtles_etcd_restore.Go.Bytes.{Bytes, bytes}
use turtles_etcd_restore.Go.Outcome.{
  M, Outcome, ok, err, Error, ApiError, api, bad_request, nil, cons, pure, lift, ◌>>=◌, ◌>>◌,
}
use turtles_etcd_restore.Webhook.Objects.{File, Rke2Config, secret}
use turtles_etcd_restore.Webhook.Client.{WebhookClient}
use turtles_etcd_restore.Webhook.Resources.{meta, create_if_absent}
use turtles_etcd_restore.Webhook.Script.{installsh}

abbrev pub default_file_owner : String
default_file_owner = "root:root"

abbrev pub connect_info_json_path : String
connect_info_json_path = "/etc/rancher/agent/connect-info-config.json"

abbrev pub system_agent_install_script_path : String
system_agent_install_script_path = "/opt/system-agent-install.sh"

abbrev pub config_yaml_path : String
config_yaml_path = "/etc/rancher/agent/config.yaml"

abbrev pub post_install_command : String
post_install_command = "sudo sh /opt/system-agent-install.sh"

-- The loops "find a better way to check if the file already exists".
unfoldable pub has_file : String → List File → Bool
has_file path [] = false
has_file path (file ∷ rest) = file.path == path || has_file path rest

-- The loop of `addPostInstallCommands`.
unfoldable pub has_command : String → List String → Bool
has_command command [] = false
has_command command (cmd ∷ rest) = cmd == command || has_command command rest

-- `rke2Config.Spec.Files = append(rke2Config.Spec.Files, file)`
unfoldable pub append_file : File → Rke2Config → Rke2Config
append_file file config = record config { files = config.files ++ (file ∷ []) }

-- The file whose content is a key of a secret.
abbrev pub secret_file : String → String → String → File
secret_file path name key = record {
  path = path;
  owner = default_file_owner;
  permissions = "0600";
  content = "";
  content_from = some (name, key);
}

abbrev pub connect_info_secret_name : Rke2Config → String
connect_info_secret_name config = config.name <> "-system-agent-connect-info-config"

abbrev pub install_script_secret_name : Rke2Config → String
install_script_secret_name config = config.name <> "-system-agent-install-script"

abbrev pub connect_info_file : Rke2Config → File
connect_info_file config =
    secret_file connect_info_json_path (connect_info_secret_name config) "connect-info-config.json"

abbrev pub install_script_file : Rke2Config → File
install_script_file config =
    secret_file system_agent_install_script_path (install_script_secret_name config) "install.sh"

abbrev pub config_yaml_file : File
config_yaml_file = record {
  path = config_yaml_path;
  owner = default_file_owner;
  permissions = "0600";
  content =
      "workDirectory: /var/lib/rancher/agent/work\nlocalPlanDirectory: /var/lib/rancher/agent/plans\nremoteEnabled: true\nconnectionInfoFile: /etc/rancher/agent/connect-info-config.json\npreserveWorkDirectory: true";
  content_from = none;
}

-- `return err` of a creation that failed
abbrev handed_on : ApiError → Outcome (Unit {0})
handed_on e = err (api e)

-- The error of `clientcmd.Write`, made a bad request.
abbrev written : Error ⊎ Bytes → Outcome Bytes
written (inl e) = err (bad_request "failed to write kubeconfig: " (cons e nil))
written (inr b) = ok b

module _ (c : WebhookClient) (connect_info_json : String → String → Bytes → Bytes) where
  -- `createConnectInfoJson`; the parameter is `json.MarshalIndent` of the three fields.
  unfoldable pub create_connect_info_json :
      Rke2Config → String → String → String → Bytes → M c.State Rke2Config
  unfolding has_file append_file
  create_connect_info_json config plan_secret_name server_url pem token =
      if has_file connect_info_json_path config.files then pure config else do
        kube_config ← lift (written (c.write_kubeconfig server_url (bytes pem) token))
        create_if_absent c handed_on (
            secret (meta (connect_info_secret_name config) config.namespace [] []) "" (
              some (
                (
                  "connect-info-config.json",
                  connect_info_json config.namespace plan_secret_name kube_config,
                )
                ∷ [])))
        pure (append_file (connect_info_file config) config)

module _ (c : WebhookClient) where
  -- `createSystemAgentInstallScript`
  unfoldable pub create_system_agent_install_script : String → Rke2Config → M c.State Rke2Config
  unfolding has_file append_file
  create_system_agent_install_script server_url config =
      if has_file system_agent_install_script_path config.files then pure config else do
        create_if_absent c handed_on (
            secret (meta (install_script_secret_name config) config.namespace [] []) "" (
              some (
                ("install.sh", bytes ("CATTLE_SERVER=" <> (server_url <> ("\n" <> installsh))))
                ∷ [])))
        pure (append_file (install_script_file config) config)

-- `createConfigYAML`, which never fails.
unfoldable pub create_config_yaml : Rke2Config → Rke2Config
unfolding has_file append_file
create_config_yaml config =
    if has_file config_yaml_path config.files then config else append_file config_yaml_file config

-- `addPostInstallCommands`
unfoldable pub add_post_install_commands : Rke2Config → Rke2Config
unfolding has_command
add_post_install_commands config =
    if has_command post_install_command config.post_rke2_commands then config else record config {
      post_rke2_commands = config.post_rke2_commands ++ (post_install_command ∷ []);
    }
