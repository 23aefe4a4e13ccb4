-- ===== src/Client/Laws.antt =====
-- What the theorems rely on of the API server and of the system agents. Between the calls of a
-- reconciliation the agents may act on the plan secrets; nobody else writes them.
use turtles_etcd_restore.Base.{◌≡◌, ◌≢◌, ◌⊎◌, Option, some}
use turtles_etcd_restore.Objects.{Key, ConfigMeta, Secret, key_of}
use turtles_etcd_restore.Go.Bytes.{Bytes, hex, entry}
use turtles_etcd_restore.Go.Outcome.{done}
use turtles_etcd_restore.Client.{Client}

-- What the agent of a machine does with its plan secret: it keeps the plan, and it keeps the
-- reported checksum or reports that of the plan.
abbrev pub AgentStep : (Bytes → Bytes) → Option Secret → Option Secret → Type 0
AgentStep sha256 before after =
    (x : Secret)
    → before ≡ some x
    → (y : Secret) × (after ≡ some y)
      × (entry y.content "plan" ≡ entry x.content "plan")
      × ((entry y.content "applied-checksum" ≡ entry x.content "applied-checksum")
          ⊎ (entry y.content "applied-checksum" ≡ hex (sha256 (entry x.content "plan"))))

-- `secret_at` is what the server holds. A call that reads answers what is there when it returns,
-- under the name that was asked for. A patch that succeeds leaves what it answers, with the data
-- that was sent. What a call does not write, only the agents change while it runs.
pub record Rely (c : Client) (sha256 : Bytes → Bytes) : Type 0 where
  pub secret_at : c.State → Key → Option Secret
  pub config_name :
      (key : Key) (s : c.State) (x : ConfigMeta)
      → (c.get_config key s).0 ≡ done x
      → x.name ≡ key.name
  pub get_config_agents :
      (key j : Key) (s : c.State)
      → AgentStep sha256 (secret_at s j) (secret_at (c.get_config key s).1 j)
  pub get_secret_done :
      (key : Key) (s : c.State) (x : Secret)
      → (c.get_secret key s).0 ≡ done x
      → (secret_at (c.get_secret key s).1 key ≡ some x) × (key_of x ≡ key)
  pub get_secret_agents :
      (key j : Key) (s : c.State)
      → AgentStep sha256 (secret_at s j) (secret_at (c.get_secret key s).1 j)
  pub patch_secret_done :
      (base obj : Secret) (s : c.State) (x : Secret)
      → (c.patch_secret base obj s).0 ≡ done x
      → (secret_at (c.patch_secret base obj s).1 (key_of obj) ≡ some x)
        × (key_of x ≡ key_of obj)
        × (x.content ≡ obj.content)
  pub patch_secret_agents :
      (base obj : Secret) (j : Key) (s : c.State)
      → key_of obj ≢ j
      → AgentStep sha256 (secret_at s j) (secret_at (c.patch_secret base obj s).1 j)
