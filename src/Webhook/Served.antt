-- ===== src/Webhook/Served.antt =====
-- The webhook and the restore controller together: the plan secret that the one creates is the one
-- that the other looks for.
use turtles_etcd_restore.Base.{String, ◌≡◌, refl, some, Option}
use turtles_etcd_restore.Go.Bytes.{Bytes, ByteMap}
use turtles_etcd_restore.Go.Outcome.{M, ok, done, call, ◌>>=◌}
use turtles_etcd_restore.Go.Rules.{
  Keeps, Keeps-pure, Keeps-raise, Keeps-lift, Keeps-call, Keeps-on_err, Keeps-if, Keeps-bind,
  Ensures, Ensures-bind,
}
use turtles_etcd_restore.Objects.{Machine, Secret}
use turtles_etcd_restore.Client.{Client}
use turtles_etcd_restore.Restore.PlanSecret.{plan_secret_name, get_plan_secret_for_machine}
use turtles_etcd_restore.Webhook.Objects.{Object, ObjectMeta, Rke2Config, secret}
use turtles_etcd_restore.Webhook.Client.{WebhookClient}
use turtles_etcd_restore.Webhook.Resources.{
  plan_secret, plan_resources, read_token, ensure_service_account_secret_populated,
}
use turtles_etcd_restore.Webhook.Created.{
  Rely, Held, HeldAt, create_if_absent-Keeps, create_secret_plan_resources-Held,
}
use turtles_etcd_restore.Webhook.Files.{
  create_connect_info_json, create_system_agent_install_script,
}
use turtles_etcd_restore.Webhook.Default.{
  rke2_config, plan_name, or_bad_request, read_settings, add_files, default,
}
use turtles_etcd_restore.Webhook.Defaulted.{Ensures-or_bad_request}

-- The lists and the reads of the webhook delete nothing, nor does a retry of a call that does not.
pub record Undisturbed (w : WebhookClient) (L : Rely w) : Type 0 where
  pub list_keeps :
      (label value : String) (x : Object) (s : w.State)
      → Held (L.object_at s x)
      → Held (L.object_at (w.list_secrets label value s).1 x)
  pub setting_keeps :
      (name : String) (x : Object) (s : w.State)
      → Held (L.object_at s x)
      → Held (L.object_at (w.get_setting name s).1 x)
  pub retry_keeps :
      (m : M w.State Bytes) (x : Object) → Keeps (HeldAt w L x) m → Keeps (HeldAt w L x) (w.retry m)

Keeps-or_bad_request :
    {S A : Type 0} {P : S → Type 0} (message : String) (m : M S A)
    → Keeps P m
    → Keeps P (or_bad_request message m)
unfolding or_bad_request
Keeps-or_bad_request message m k = record { at = k.at }

module _ (w : WebhookClient) (connect_info_json : String → String → Bytes → Bytes) (L : Rely w)
    (U : Undisturbed w L) where
  ensure-Keeps :
      (x : Object) (name : String)
      → Keeps (HeldAt w L x) (ensure_service_account_secret_populated w name)
  unfolding ensure_service_account_secret_populated read_token
  ensure-Keeps x name = U.retry_keeps (read_token w name) x (
      Keeps-bind _ _ (Keeps-on_err _ _ (Keeps-call _ (U.list_keeps _ _ x)))
        (λ secrets. Keeps-lift _))

  setting-Keeps :
      (x : Object) (message name : String)
      → Keeps (HeldAt w L x) (or_bad_request message (call (w.get_setting name)))
  setting-Keeps x message name = Keeps-or_bad_request _ _ (Keeps-call _ (U.setting_keeps name x))

  read_settings-Keeps : (x : Object) → Keeps (HeldAt w L x) (read_settings w connect_info_json)
  unfolding read_settings
  read_settings-Keeps x = Keeps-bind _ _ (setting-Keeps x _ _) (λ url_setting.
      Keeps-bind _ _ (Keeps-lift _) (λ server_url. Keeps-if _ _ _ (Keeps-raise _) (
        Keeps-bind _ _ (setting-Keeps x _ _)
          (λ ca_setting. Keeps-bind _ _ (Keeps-lift _) (λ pem. Keeps-pure _)))))

  add_files-Keeps :
      (x : Object) (config : Rke2Config) (server_url pem : String) (token : Bytes)
      → Keeps (HeldAt w L x) (add_files w connect_info_json config server_url pem token)
  unfolding add_files create_connect_info_json create_system_agent_install_script
  add_files-Keeps x config server_url pem token =
      Keeps-bind _ _
        (Keeps-or_bad_request _ _ (
          Keeps-if _ _ _ (Keeps-pure _) (
            Keeps-bind _ _ (Keeps-lift _) (λ kube_config.
              Keeps-bind _ _ (create_if_absent-Keeps w L _ _ x) (λ a. Keeps-pure _)))))
        (λ with_connect_info.
          Keeps-bind _ _
            (Keeps-or_bad_request _ _ (
              Keeps-if _ _ _ (Keeps-pure _)
                (Keeps-bind _ _ (create_if_absent-Keeps w L _ _ x) (λ a. Keeps-pure _))))
            (λ with_script. Keeps-pure _))

  -- What follows the creation of the objects keeps the plan secret.
  default-Held :
      (config : Rke2Config)
      → Ensures
          (λ _. Unit)
          (default w connect_info_json (rke2_config config))
          (λ _ s. HeldAt w L (plan_secret (plan_name config) config) s)
  unfolding default plan_resources
  default-Held config =
      let x : Object = plan_secret (plan_name config) config in
      Ensures-bind {R = λ _ s. HeldAt w L x s} _ _
        (Ensures-or_bad_request _ _ (record {
          at = λ s h a e. (create_secret_plan_resources-Held w L (plan_name config) config s e).1.0;
        }))
        (λ a. kept _ (
          Keeps-bind _ _ (Keeps-or_bad_request _ _ (ensure-Keeps x _)) (λ token.
            Keeps-bind _ _ (read_settings-Keeps x)
              (λ settings. add_files-Keeps x config _ _ token))))
    where
      kept :
          {A : Type 0} {P : w.State → Type 0} (m : M w.State A) → Keeps P m → Ensures P m (λ _. P)
      kept m k = record { at = λ s h a e. k.at s h }

  -- Where the restore controller finds the server after a call of the webhook: it reads the
  -- configuration, and every secret that was there when the call ended.
  pub record Visible (c : Client) (config : Rke2Config) (t : w.State) (After : c.State → Type 0)
      : Type 0 where
    pub config_read :
        (s : c.State)
        → After s
        → (s' : c.State) × (c.get_config
              (record { namespace = config.namespace; name = config.name })
              s
            ≡ (done (record { name = config.name; namespace = config.namespace }), s'))
          × After s'
    pub secret_read :
        (m : ObjectMeta) (kind : String) (content : Option ByteMap) (s : c.State)
        → HeldAt w L (secret m kind content) t
        → After s
        → (x : Secret) × (s' : c.State) × (c.get_secret
              (record { namespace = m.namespace; name = m.name })
              s
            ≡ (done x, s'))

  -- Let `Default` of the webhook succeed for a configuration, where the answers of the server are
  -- as the webhook relies on and nothing is deleted meanwhile. If the restore controller then reads
  -- the configuration and every secret that was there when the call ended, then
  -- `getPlanSecretForMachine` finds a plan secret for each machine in the configuration's namespace
  -- whose bootstrap reference names the configuration.
  pub plan_secret_found :
      (c : Client) (After : c.State → Type 0) (config config' : Rke2Config) (t : w.State)
      (machine : Machine) (s : c.State)
      → (default w connect_info_json (rke2_config config) t).0 ≡ ok config'
      → Visible c config (default w connect_info_json (rke2_config config) t).1 After
      → machine.namespace ≡ config.namespace
      → machine.config_ref ≡ some config.name
      → After s
      → (x : Secret) × (s' : c.State) × (get_plan_secret_for_machine c machine s ≡ (ok x, s'))
  unfolding get_plan_secret_for_machine plan_secret_name plan_name ◌>>=◌
  plan_secret_found c After config config' t machine s succeeds visible same_namespace has after =
      let (s₁, config_is, after₁) = visible.config_read s after in
      let held = (default-Held config).at t tt config' succeeds in
      let (x, s₂, secret_is) = visible.secret_read _ _ _ s₁ held after₁ in
      (x, s₂, rw (has, same_namespace, config_is, secret_is) refl)
