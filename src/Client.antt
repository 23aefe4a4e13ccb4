-- ===== src/Client.antt =====
-- What the restore controller uses of the code that is not in the repository: the calls of
-- controller-runtime's `client.Client`, with the API server behind them, and the decoders of the
-- standard library that it does not look into.
pub mod Laws
use turtles_etcd_restore.Base.{String, List, ◌⊎◌, inl, inr}
use turtles_etcd_restore.Objects.{Key, Machine, Cluster, ConfigMeta, Secret}
use turtles_etcd_restore.Api.{EtcdSnapshotRestore, EtcdMachineBackup}
use turtles_etcd_restore.Go.Bytes.{Bytes, ByteMap}
use turtles_etcd_restore.Go.Outcome.{Reply, Error, Outcome, ok, err}

-- Every call may read and change the state behind the client, so that other clients may act
-- between two calls. A patch takes the object that `client.MergeFrom` was given, with optimistic
-- lock, and the changed object, and answers what the server holds after it.
pub record Client : Type 1 where
  pub State : Type 0
  pub get_restore : Key → State → Reply EtcdSnapshotRestore × State
  pub get_cluster : Key → State → Reply Cluster × State
  pub get_backup : Key → State → Reply EtcdMachineBackup × State
  pub get_config : Key → State → Reply ConfigMeta × State
  pub get_secret : Key → State → Reply Secret × State
  -- `List` with `InNamespace` and the label `cluster.x-k8s.io/cluster-name`
  pub list_machines : String → String → State → Reply (List Machine) × State
  pub patch_cluster : Cluster → Cluster → State → Reply Cluster × State
  pub patch_secret : Secret → Secret → State → Reply Secret × State
  pub patch_restore :
      EtcdSnapshotRestore → EtcdSnapshotRestore → State → Reply EtcdSnapshotRestore × State
  -- `Status().Patch`
  pub patch_restore_status :
      EtcdSnapshotRestore → EtcdSnapshotRestore → State → Reply EtcdSnapshotRestore × State

-- `sha256.Sum256`, `gzip.NewReader`, `io.ReadAll` of the reader, and `json.Unmarshal` into a
-- `map[string][]byte`.
pub record Codec : Type 0 where
  pub sha256 : Bytes → Bytes
  pub new_gzip_reader : Bytes → Error ⊎ Bytes
  pub read_all : Bytes → Error ⊎ Bytes
  pub unmarshal_output : Bytes → Error ⊎ ByteMap

abbrev pub tried {ℓ} : {A : Type ℓ} → Error ⊎ A → Outcome A
tried (inl e) = err e
tried (inr a) = ok a
