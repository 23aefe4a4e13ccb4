-- ===== src/Webhook/Complete.antt =====
-- What a configuration holds after the webhook, and that a complete one is left as it is.
use turtles_etcd_restore.Base.{
  String, ◌≡◌, refl, sym, ◌∙◌, ap, Bool, true, false, List, [], ◌∷◌, ◌++◌, ◌||◌, eq_refl, arith,
  if◌then◌else◌,
}
use mathlib.Core.List.{append-nil, append_assoc}
use turtles_etcd_restore.Webhook.Objects.{File, Rke2Config}
use turtles_etcd_restore.Webhook.Files.{
  has_file, has_command, append_file, connect_info_json_path, system_agent_install_script_path,
  config_yaml_path, post_install_command, create_config_yaml, add_post_install_commands,
  config_yaml_file,
}

-- The configuration has the three files and the command of the system agent.
abbrev pub Complete : Rke2Config → Type 0
Complete config =
    (has_file connect_info_json_path config.files ≡ true)
    × (has_file system_agent_install_script_path config.files ≡ true)
    × (has_file config_yaml_path config.files ≡ true)
    × (has_command post_install_command config.post_rke2_commands ≡ true)

-- The second configuration has what the first has, and more behind it.
abbrev pub Extends : Rke2Config → Rke2Config → Type 0
Extends config config' =
    (config'.name ≡ config.name)
    × (config'.namespace ≡ config.namespace)
    × ((more : List File) × (config'.files ≡ config.files ++ more))
    × ((more : List String) × (config'.post_rke2_commands ≡ config.post_rke2_commands ++ more))

pub Extends-refl : (config : Rke2Config) → Extends config config
Extends-refl config = (
  refl,
  refl,
  ([], sym (append-nil config.files)),
  ([], sym (append-nil config.post_rke2_commands)),
)

pub Extends-trans : (x y z : Rke2Config) → Extends x y → Extends y z → Extends x z
Extends-trans x y z (n, ns, (fs, f), (cs, p)) (n', ns', (fs', f'), (cs', p')) = (
  n' ∙ n,
  ns' ∙ ns,
  (fs ++ fs', f' ∙ ap (λ l. l ++ fs') f ∙ append_assoc x.files fs fs'),
  (cs ++ cs', p' ∙ ap (λ l. l ++ cs') p ∙ append_assoc x.post_rke2_commands cs cs'),
)

has_file-append :
    (path : String) (xs ys : List File)
    → has_file path (xs ++ ys) ≡ (has_file path xs || has_file path ys)
unfolding has_file
has_file-append path [] ys = refl
has_file-append path (x ∷ xs) ys = let ih = has_file-append path xs ys in ground arith

has_command-append :
    (command : String) (xs ys : List String)
    → has_command command (xs ++ ys) ≡ (has_command command xs || has_command command ys)
unfolding has_command
has_command-append command [] ys = refl
has_command-append command (x ∷ xs) ys = let ih = has_command-append command xs ys in ground arith

or_left : (a b : Bool) → a ≡ true → (a || b) ≡ true
or_left a b h = ground arith

pub has_file-Extends :
    (path : String) (x y : Rke2Config)
    → Extends x y
    → has_file path x.files ≡ true
    → has_file path y.files ≡ true
has_file-Extends path x y (_, _, (fs, f), _) h =
    ap (has_file path) f ∙ has_file-append path x.files fs ∙ or_left _ _ h

pub append_file-Extends :
    (file : File) (config : Rke2Config) → Extends config (append_file file config)
unfolding append_file
append_file-Extends file config =
    (refl, refl, (file ∷ [], refl), ([], sym (append-nil config.post_rke2_commands)))

pub has_file-append_file :
    (file : File) (config : Rke2Config) → has_file file.path (append_file file config).files ≡ true
unfolding append_file has_file
has_file-append_file file config =
    let e = eq_refl file.path in
    let a = has_file-append file.path config.files (file ∷ []) in ground arith

-- `createConfigYAML` leaves its file.
pub create_config_yaml-Extends :
    (config : Rke2Config)
    → Extends config (create_config_yaml config)
      × (has_file config_yaml_path (create_config_yaml config).files ≡ true)
unfolding create_config_yaml
create_config_yaml-Extends config = go (has_file config_yaml_path config.files) refl
  where
    go :
        (b : Bool)
        → has_file config_yaml_path config.files ≡ b
        → Extends config (if b then config else append_file config_yaml_file config)
          × (has_file config_yaml_path
                (if b then config else append_file config_yaml_file config).files
              ≡ true)
    go true e = (Extends-refl config, e)
    go false e =
        (append_file-Extends config_yaml_file config, has_file-append_file config_yaml_file config)

pub add_post_install_commands-Extends :
    (config : Rke2Config)
    → Extends config (add_post_install_commands config)
      × (has_command post_install_command (add_post_install_commands config).post_rke2_commands
          ≡ true)
unfolding add_post_install_commands has_command
add_post_install_commands-Extends config =
    go (has_command post_install_command config.post_rke2_commands) refl
  where
    with_command : Rke2Config
    with_command = record config {
      post_rke2_commands = config.post_rke2_commands ++ (post_install_command ∷ []);
    }

    go :
        (b : Bool)
        → has_command post_install_command config.post_rke2_commands ≡ b
        → Extends config (if b then config else with_command)
          × (has_command post_install_command
                (if b then config else with_command).post_rke2_commands
              ≡ true)
    go true e = (Extends-refl config, e)
    go false e = (
      (refl, refl, ([], sym (append-nil config.files)), (post_install_command ∷ [], refl)),
      let a =
            has_command-append post_install_command config.post_rke2_commands
              (post_install_command ∷ []) in
          ground arith,
    )
