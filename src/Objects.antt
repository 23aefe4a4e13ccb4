-- ===== src/Objects.antt =====
-- The objects of Kubernetes and of Cluster API that the controllers read and write, with the
-- fields that the code uses. A Go pointer or map that may be nil is an `Option`.
use turtles_etcd_restore.Base.{
  String, Bool, Option, List, ◌≡◌, ◌≢◌, ◌⊎◌, inl, inr, ◌==◌, eq_iff, arith, Bool-cases, ◌&&◌,
}
use turtles_etcd_restore.Go.Bytes.{ByteMap}

-- `client.ObjectKey`, `types.NamespacedName`
pub record Key : Type 0 where
  pub namespace : String
  pub name : String

-- `clusterv1.MachineAddress`
pub record MachineAddress : Type 0 where
  pub kind : String  -- `Type`
  pub address : String

-- `clusterv1.Machine`: `Spec.ClusterName`, `Spec.Bootstrap.ConfigRef.Name`, `Status.Phase`,
-- `Status.NodeRef.Name`, `Status.Addresses`
pub record Machine : Type 0 where
  pub name : String
  pub namespace : String
  pub cluster_name : String
  pub config_ref : Option String
  pub phase : String
  pub node_ref : Option String
  pub addresses : List MachineAddress

-- `clusterv1.Cluster`: `Spec.Paused`, `Spec.ControlPlaneRef.Kind`, `Status.ControlPlaneReady`
pub record Cluster : Type 0 where
  pub name : String
  pub namespace : String
  pub resource_version : String
  pub paused : Bool
  pub control_plane_kind : Option String
  pub control_plane_ready : Bool

-- `bootstrapv1.RKE2Config`, as the restore controller reads it
pub record ConfigMeta : Type 0 where
  pub name : String
  pub namespace : String

-- `corev1.Secret`; `content` is `Data`
pub record Secret : Type 0 where
  pub name : String
  pub namespace : String
  pub resource_version : String
  pub content : Option ByteMap

-- `client.ObjectKeyFromObject`
abbrev pub key_of : Secret → Key
key_of secret = record { namespace = secret.namespace; name = secret.name }

pub Key-cases : (a b : Key) → (a ≡ b) ⊎ (a ≢ b)
Key-cases a b = elim (Bool-cases (a.namespace == b.namespace && a.name == b.name)) [
  | inl e ↦ inl (ground (arith, eq_iff a.namespace b.namespace, eq_iff a.name b.name))
  | inr e ↦ inr (λ p. ground (arith, eq_iff a.namespace b.namespace, eq_iff a.name b.name))
]
