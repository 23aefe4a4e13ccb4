-- ===== src/Webhook/Objects.antt =====
-- The objects that the webhook reads, changes and creates, with the fields that the code uses.
use turtles_etcd_restore.Base.{String, Option, List}
use turtles_etcd_restore.Go.Bytes.{ByteMap}

-- `bootstrapv1.File`; the secret of `ContentFrom` is a pair of its name and key.
pub record File : Type 0 where
  pub path : String
  pub owner : String
  pub permissions : String
  pub content : String
  pub content_from : Option (String × String)

-- `bootstrapv1.RKE2Config`: `Name`, `Namespace`, `Spec.Files`, `Spec.PostRKE2Commands`
pub record Rke2Config : Type 0 where
  pub name : String
  pub namespace : String
  pub files : List File
  pub post_rke2_commands : List String

-- The parts of `metav1.ObjectMeta` that the code sets.
pub record ObjectMeta : Type 0 where
  pub name : String
  pub namespace : String
  pub labels : List (String × String)
  pub annotations : List (String × String)

-- `rbacv1.PolicyRule`
pub record PolicyRule : Type 0 where
  pub verbs : List String
  pub api_groups : List String
  pub resources : List String
  pub resource_names : List String

-- The objects that are created.
pub data Object : Type 0 where
  service_account : ObjectMeta → Object
  secret : ObjectMeta → String → Option ByteMap → Object
  role : ObjectMeta → List PolicyRule → Object
  -- the kind, name and namespace of the one subject, and the API group, kind and name of the role
  role_binding : ObjectMeta → String × String × String → String × String × String → Object

abbrev pub meta_of : Object → ObjectMeta
meta_of (service_account meta) = meta
meta_of (secret meta _ _) = meta
meta_of (role meta _) = meta
meta_of (role_binding meta _ _) = meta
