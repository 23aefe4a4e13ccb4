-- ===== src/Webhook/Client.antt =====
-- What the webhook uses of code that is not in the repository: the client, the retries of
-- client-go, and the writer of a kubeconfig.
use turtles_etcd_restore.Base.{String, List, Option, ◌⊎◌}
use turtles_etcd_restore.Unstructured.{Fields}
use turtles_etcd_restore.Go.Bytes.{Bytes, ByteMap}
use turtles_etcd_restore.Go.Outcome.{M, Reply, Error}
use turtles_etcd_restore.Webhook.Objects.{Object}

pub record WebhookClient : Type 1 where
  pub State : Type 0
  pub create : Object → State → Reply (Unit {0}) × State
  -- `obj.GetObjectKind().GroupVersionKind().String()`
  pub kind_text : Object → String
  -- `List` of the secrets with a label of that value; the data of each
  pub list_secrets : String → String → State → Reply (List (Option ByteMap)) × State
  -- `Get` of a `Setting` of `management.cattle.io/v3`
  pub get_setting : String → State → Reply Fields × State
  -- `retry.OnError(retry.DefaultRetry, …)` with a test that retries every error
  pub retry : M State Bytes → M State Bytes
  -- `clientcmd.Write` of the config with one cluster, user and context named `agent`, from the
  -- server's address, the certificate authority's data and the token
  pub write_kubeconfig : String → Bytes → Bytes → Error ⊎ Bytes
