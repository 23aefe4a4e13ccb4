-- ===== src/Webhook/Defaulted.antt =====
-- What `Default` gives: a complete configuration that extends the one it was given, and the same
-- again when it is called again.
use turtles_etcd_restore.Base.{String, ◌≡◌, sym, ap, ◌∙◌, true}
use turtles_etcd_restore.Go.Bytes.{Bytes}
use turtles_etcd_restore.Go.Outcome.{M, Outcome, ok, err, panic, ◌>>=◌}
use turtles_etcd_restore.Go.Rules.{Ensures, Ensures-pure, Ensures-if, Ensures-bind}
use turtles_etcd_restore.Webhook.Objects.{Rke2Config}
use turtles_etcd_restore.Webhook.Client.{WebhookClient}
use turtles_etcd_restore.Webhook.Files.{
  has_file, connect_info_json_path, system_agent_install_script_path, connect_info_file,
  install_script_file, config_yaml_path, create_connect_info_json,
  create_system_agent_install_script, create_config_yaml, add_post_install_commands,
}
use turtles_etcd_restore.Webhook.Default.{
  rke2_config, plan_name, or_bad_request, refused, add_files, default,
}
use turtles_etcd_restore.Webhook.Complete.{
  Complete, Extends, Extends-refl, Extends-trans, has_file-Extends, append_file-Extends,
  has_file-append_file, create_config_yaml-Extends, add_post_install_commands-Extends,
}

refused-eq_ok {ℓ} :
    {A : Type ℓ} (message : String) (r : Outcome A) {a : A} → refused message r ≡ ok a → r ≡ ok a
refused-eq_ok message (ok a) h = h
refused-eq_ok message (err e) h = cc
refused-eq_ok message panic h = cc

pub Ensures-or_bad_request :
    {S A : Type 0} {P : S → Type 0} {Q : A → S → Type 0} (message : String) (m : M S A)
    → Ensures P m Q
    → Ensures P (or_bad_request message m) Q
unfolding or_bad_request
Ensures-or_bad_request message m k = record {
  at = λ s h b e. k.at s h b (refused-eq_ok message (m s).0 e);
}

pub any : {S A : Type 0} (m : M S A) → Ensures (λ _. Unit) m (λ _ _. Unit)
any m = record { at = λ _ _ _ _. tt }

module _ (c : WebhookClient) (connect_info_json : String → String → Bytes → Bytes) where
  HasFile : Rke2Config → String → Rke2Config → Type 0
  HasFile config path x = Extends config x × (has_file path x.files ≡ true)

  connect_info-HasFile :
      (config : Rke2Config) (name server_url pem : String) (token : Bytes)
      → Ensures
          (λ _. Unit)
          (create_connect_info_json c connect_info_json config name server_url pem token)
          (λ x _. HasFile config connect_info_json_path x)
  unfolding create_connect_info_json HasFile
  connect_info-HasFile config name server_url pem token =
      Ensures-if _ _ _ (λ there. Ensures-pure _ (λ _ _. (Extends-refl config, there)))
        (λ _. Ensures-bind {R = λ _ _. Unit} _ _ (any _) (λ _.
          Ensures-bind {R = λ _ _. Unit} _ _ (any _) (λ _. Ensures-pure _ (λ _ _. (
            append_file-Extends (connect_info_file config) config,
            has_file-append_file (connect_info_file config) config,
          )))))

  script-HasFile :
      (server_url : String) (config : Rke2Config)
      → Ensures
          (λ _. Unit)
          (create_system_agent_install_script c server_url config)
          (λ x _. HasFile config system_agent_install_script_path x)
  unfolding create_system_agent_install_script HasFile
  script-HasFile server_url config =
      Ensures-if _ _ _ (λ there. Ensures-pure _ (λ _ _. (Extends-refl config, there)))
        (λ _. Ensures-bind {R = λ _ _. Unit} _ _ (any _) (λ _. Ensures-pure _ (λ _ _. (
          append_file-Extends (install_script_file config) config,
          has_file-append_file (install_script_file config) config,
        ))))

  -- The last two steps, which never fail.
  all_added :
      (config x y : Rke2Config)
      → HasFile config connect_info_json_path x
      → HasFile x system_agent_install_script_path y
      → Extends config (add_post_install_commands (create_config_yaml y))
        × Complete (add_post_install_commands (create_config_yaml y))
  unfolding HasFile
  all_added config x y (ex, connect) (ey, script) =
      let y' : Rke2Config = create_config_yaml y in
      let z : Rke2Config = add_post_install_commands y' in
      let (e, yaml) = create_config_yaml-Extends y in
      let (e', command) = add_post_install_commands-Extends y' in
      let to_z = Extends-trans y y' z e e' in
      (
        Extends-trans config x z ex (Extends-trans x y z ey to_z),
        (
          has_file-Extends connect_info_json_path x z (Extends-trans x y z ey to_z) connect,
          has_file-Extends system_agent_install_script_path y z to_z script,
          has_file-Extends config_yaml_path y' z e' yaml,
          command,
        ),
      )

  add_files-Complete :
      (config : Rke2Config) (server_url pem : String) (token : Bytes)
      → Ensures
          (λ _. Unit)
          (add_files c connect_info_json config server_url pem token)
          (λ x _. Extends config x × Complete x)
  unfolding add_files
  add_files-Complete config server_url pem token =
      Ensures-bind {R = λ x _. HasFile config connect_info_json_path x} _ _
        (Ensures-or_bad_request _ _
          (connect_info-HasFile config (plan_name config) server_url pem token))
        (λ x. record {
          at = λ s h.
              (Ensures-bind {R = λ y _. HasFile x system_agent_install_script_path y}
                  {Q = λ x _. Extends config x × Complete x} _ _
                  (Ensures-or_bad_request _ _ (script-HasFile server_url x))
                  (λ y. Ensures-pure _ (λ _ h'. all_added config x y h h'))).at
                s tt;
        })

  -- When `Default` succeeds, the configuration that comes out has the name and the namespace of
  -- the one that went in and all its files and commands, in front of those that were added, and it
  -- has the connection info, the install script and the agent's configuration among its files and
  -- the command that runs the script.
  pub default_completes :
      (config : Rke2Config) (s : c.State) (config' : Rke2Config)
      → (default c connect_info_json (rke2_config config) s).0 ≡ ok config'
      → Extends config config' × Complete config'
  unfolding default
  default_completes config s config' e =
      (Ensures-bind {R = λ _ _. Unit} {Q = λ x _. Extends config x × Complete x} {P = λ _. Unit} _ _
          (any _)
          (λ _. Ensures-bind {R = λ _ _. Unit} _ _ (any _) (λ token.
            Ensures-bind {R = λ _ _. Unit} _ _ (any _)
              (λ settings. add_files-Complete config settings.0 settings.1 token)))).at
        s tt config' e

  -- What is complete is left as it is, and nothing is created for it.
  add_files-Complete_again :
      (config : Rke2Config) (server_url pem : String) (token : Bytes) (s : c.State)
      → Complete config
      → add_files c connect_info_json config server_url pem token s ≡ (ok config, s)
  unfolding ◌>>=◌ add_files create_connect_info_json create_system_agent_install_script
      create_config_yaml add_post_install_commands
  add_files-Complete_again config server_url pem token s (connect, script, yaml, command) =
      rw (connect, script, yaml, command)

  -- If `Default` succeeds for a configuration, and then at any later state for the configuration
  -- that came out, then it gives that configuration again, whatever the settings and the token are
  -- by then: no file and no command is added twice.
  pub default_again :
      (config config' config'' : Rke2Config) (s t : c.State)
      → (default c connect_info_json (rke2_config config) s).0 ≡ ok config'
      → (default c connect_info_json (rke2_config config') t).0 ≡ ok config''
      → config'' ≡ config'
  unfolding default
  default_again config config' config'' s t first again =
      let complete = (default_completes config s config' first).1 in
      (Ensures-bind {R = λ _ _. Unit} {Q = λ x _. x ≡ config'} {P = λ _. Unit} _ _ (any _) (λ _.
          Ensures-bind {R = λ _ _. Unit} _ _ (any _) (λ token.
            Ensures-bind {R = λ _ _. Unit} _ _ (any _) (λ settings. record {
              at = λ u h x e. same_ok (
                  sym e
                  ∙ ap (λ r. r.0)
                      (add_files-Complete_again config' settings.0 settings.1 token u complete));
            })))).at
        t tt config'' again
    where
      same_ok : {x y : Rke2Config} → ok x ≡ ok y → x ≡ y
      same_ok e = cc
