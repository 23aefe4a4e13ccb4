-- ===== src/Tests/WebhookRuns.antt =====
-- A client in memory for the webhook, and its theorems on a configuration with one file.
use turtles_etcd_restore.Base.{
  Option, Bool, false, eq_refl, All, ◌==◌, ◌&&◌, if◌then◌else◌, true, String, ◌≡◌, refl, inr, none,
  some, List, [], ◌∷◌,
}
use turtles_etcd_restore.Unstructured.{end, field, Value, lookup}
use turtles_etcd_restore.Go.Bytes.{Bytes, index}
use turtles_etcd_restore.Go.Text.{join}
use turtles_etcd_restore.Go.Outcome.{ok, fail, already_exists, done, ◌>>=◌}
use turtles_etcd_restore.Webhook.Objects.{
  File, Rke2Config, Object, service_account, secret, role, role_binding, meta_of,
}
use turtles_etcd_restore.Webhook.Client.{WebhookClient}
use turtles_etcd_restore.Webhook.Resources.{
  plan_resources, token_of, create_if_absent, create_all, create_secret_plan_resources, read_token,
  ensure_service_account_secret_populated,
}
use turtles_etcd_restore.Webhook.Files.{
  has_file, has_command, append_file, connect_info_file, install_script_file, config_yaml_file,
  post_install_command, create_connect_info_json, create_system_agent_install_script,
  create_config_yaml, add_post_install_commands,
}
use turtles_etcd_restore.Webhook.Default.{
  rke2_config, plan_name, or_bad_request, read_settings, add_files, default,
}
use turtles_etcd_restore.Webhook.Complete.{Complete, Extends}
use turtles_etcd_restore.Webhook.Created.{
  five_objects, Held, Rely, create_secret_plan_resources-Held,
}
use turtles_etcd_restore.Webhook.Token.{Retries, TokenListed, default-TokenListed}
use turtles_etcd_restore.Webhook.Defaulted.{default_completes, default_again}

abbrev pub registry : WebhookClient
registry = record {
  State = List Object;
  create = λ object s. (done tt, object ∷ s);
  kind_text = λ object. "";
  list_secrets = λ label name s. (done (some (("token", 116 ∷ []) ∷ []) ∷ []), s);
  get_setting = λ name s. (done (field "value" (Value.text "https://rancher") end), s);
  retry = λ m. m;
  write_kubeconfig = λ url pem token. inr token;
}

abbrev pub info_json : String → String → Bytes → Bytes
info_json namespace name kube_config = kube_config

abbrev motd : File
motd = record {
  path = "/etc/motd";
  owner = "root";
  permissions = "0644";
  content = "hi";
  content_from = none;
}

abbrev pub bare : Rke2Config
bare = record { name = "a"; namespace = "ns"; files = motd ∷ []; post_rke2_commands = [] }

abbrev pub equipped : Rke2Config
equipped = record {
  name = "a";
  namespace = "ns";
  files = motd ∷ connect_info_file bare ∷ install_script_file bare ∷ config_yaml_file ∷ [];
  post_rke2_commands = post_install_command ∷ [];
}

pub equips : (default registry info_json (rke2_config bare) []).0 ≡ ok equipped
unfolding default create_secret_plan_resources create_all plan_resources create_if_absent
    ensure_service_account_secret_populated read_token token_of read_settings lookup add_files
    or_bad_request create_connect_info_json create_system_agent_install_script create_config_yaml
    add_post_install_commands has_file has_command append_file plan_name join index ◌>>=◌
equips = refl

default_completes_example : Extends bare equipped × Complete equipped
default_completes_example = default_completes registry info_json bare [] equipped equips

equips_again : (default registry info_json (rke2_config equipped) []).0 ≡ ok equipped
unfolding equips
equips_again = refl

default_again_example : equipped ≡ equipped
default_again_example =
    default_again registry info_json bare equipped equipped [] [] equips equips_again

abbrev pub kind_of : Object → String
kind_of (service_account _) = "ServiceAccount"
kind_of (secret _ _ _) = "Secret"
kind_of (role _ _) = "Role"
kind_of (role_binding _ _ _) = "RoleBinding"

abbrev pub same_object : Object → Object → Bool
same_object x y =
    kind_of x == kind_of y
    && (meta_of x).namespace == (meta_of y).namespace
    && (meta_of x).name == (meta_of y).name

abbrev pub newest : List Object → Object → Option Object
newest [] x = none
newest (object ∷ rest) x = if same_object object x then some object else newest rest x

same_object_refl : (x : Object) → same_object x x ≡ true
same_object_refl x = simp eq_refl

pub newest_created : (x : Object) (s : List Object) → newest (x ∷ s) x ≡ some x
newest_created x s = rw (same_object_refl x) refl

pub newest_kept :
    (object : Object) (s : List Object) (x : Object)
    → Held (newest s x)
    → Held (newest (object ∷ s) x)
newest_kept object s x h = go (same_object object x)
  where
    go : (b : Bool) → Held (if b then some object else newest s x)
    go true = (object, refl)
    go false = h

pub never_fails :
    (object : Object) (s : List Object) → (registry.create object s).0 ≡ fail already_exists → ⊥
never_fails object s h = cc

abbrev pub registry-Rely : Rely registry
registry-Rely = record {
  object_at = λ s x. newest s x;
  create_done = λ object s h. newest_created object s;
  create_exists = λ object s h. absurd (never_fails object s h);
  create_keeps = λ object s x h. newest_kept object s x h;
}

creates : (create_secret_plan_resources registry "a-rke2config-plan" bare []).0 ≡ ok tt
unfolding equips
creates = refl

create_secret_plan_resources-Held_example :
    All
      (λ x. Held (newest (create_secret_plan_resources registry "a-rke2config-plan" bare []).1 x))
      (five_objects "a-rke2config-plan" bare)
create_secret_plan_resources-Held_example =
    create_secret_plan_resources-Held registry registry-Rely "a-rke2config-plan" bare [] creates

-- The registry tries once.
tried_once : Retries registry
tried_once m s a e = (s, e)

default-TokenListed_example :
    (token : Bytes) × TokenListed registry info_json (plan_name bare) token
default-TokenListed_example =
    default-TokenListed registry info_json tried_once bare [] equipped equips
