-- ===== src/Tests/World.antt =====
-- A client in memory for the restore controller, of one cluster with one restore and one backup,
-- on which nobody else acts. It meets what the theorems rely on.
use turtles_etcd_restore.Base.{
  ◌≡◌, ◌≢◌, refl, inl, Bool, true, false, Option, none, some, List, ◌==◌, ◌&&◌, eq_iff, eq_refl,
  arith, if◌then◌else◌,
}
use turtles_etcd_restore.Objects.{Key, Machine, Cluster, Secret, key_of}
use turtles_etcd_restore.Api.{EtcdSnapshotRestore, EtcdMachineBackup}
use turtles_etcd_restore.Go.Bytes.{Bytes, ByteMap}
use turtles_etcd_restore.Go.Outcome.{Reply, done, fail, not_found}
use turtles_etcd_restore.Client.{Client}
use turtles_etcd_restore.Client.Laws.{Rely, AgentStep}

pub record World : Type 0 where
  pub saved : EtcdSnapshotRestore
  pub cluster : Cluster
  pub backup : EtcdMachineBackup
  pub machines : List Machine
  pub secrets : Key → Option (Option ByteMap)

abbrev pub same_key : Key → Key → Bool
same_key a b = a.namespace == b.namespace && a.name == b.name

abbrev pub as_secret : Key → Option (Option ByteMap) → Option Secret
as_secret key none = none
as_secret key (some m) =
    some (record { name = key.name; namespace = key.namespace; resource_version = ""; content = m })

abbrev or_not_found : {A : Type 0} → Option A → Reply A
or_not_found none = fail not_found
or_not_found (some a) = done a

abbrev pub put_secret : Secret → World → World
put_secret obj w = record w {
  secrets = λ j. if same_key (key_of obj) j then some obj.content else w.secrets j;
}

abbrev pub patch : Secret → World → Option (Option ByteMap) → Reply Secret × World
patch obj w none = (fail not_found, w)
patch obj w (some _) = (done (record obj { resource_version = "" }), put_secret obj w)

abbrev pub memory : Client
memory = record {
  State = World;
  get_restore = λ key w. (done w.saved, w);
  get_cluster = λ key w. (done w.cluster, w);
  get_backup = λ key w. (done w.backup, w);
  get_config = λ key w. (done (record { name = key.name; namespace = key.namespace }), w);
  get_secret = λ key w. (or_not_found (as_secret key (w.secrets key)), w);
  list_machines = λ namespace name w. (done w.machines, w);
  patch_cluster = λ base obj w. (done obj, record w { cluster = obj });
  patch_secret = λ base obj w. patch obj w (w.secrets (key_of obj));
  patch_restore = λ base obj w. (done w.saved, w);
  patch_restore_status = λ base obj w. (done obj, record w { saved = obj });
}

agents_rest : (sha256 : Bytes → Bytes) (o : Option Secret) → AgentStep sha256 o o
agents_rest sha256 o x here = (x, here, refl, inl refl)

as_secret-key :
    (key : Key) (o : Option (Option ByteMap)) (x : Secret)
    → or_not_found (as_secret key o) ≡ done x
    → (as_secret key o ≡ some x) × (key_of x ≡ key)
as_secret-key key none x h = cc
as_secret-key key (some m) x h = ground arith

pub same_key_refl : (key : Key) → same_key key key ≡ true
same_key_refl key = simp eq_refl

same_key-ne : (a b : Key) → a ≢ b → same_key a b ≡ false
same_key-ne a b ne = ground (arith, eq_iff a.namespace b.namespace, eq_iff a.name b.name)

patched_at :
    (obj x : Secret) (w : World) (o : Option (Option ByteMap))
    → (patch obj w o).0 ≡ done x
    → (as_secret (key_of obj) ((patch obj w o).1.secrets (key_of obj)) ≡ some x)
      × (key_of x ≡ key_of obj)
      × (x.content ≡ obj.content)
patched_at obj x w none h = cc
patched_at obj x w (some m) h = rw same_key_refl (ground arith)

patched_elsewhere :
    (sha256 : Bytes → Bytes) (obj : Secret) (w : World) (j : Key) (o : Option (Option ByteMap))
    → key_of obj ≢ j
    → AgentStep sha256 (as_secret j (w.secrets j)) (as_secret j ((patch obj w o).1.secrets j))
patched_elsewhere sha256 obj w j none ne = agents_rest sha256 _
patched_elsewhere sha256 obj w j (some m) ne =
    rw (same_key-ne (key_of obj) j ne) (agents_rest sha256 _)

pub memory-Rely : (sha256 : Bytes → Bytes) → Rely memory sha256
memory-Rely sha256 = record {
  secret_at = λ w key. as_secret key (w.secrets key);
  config_name = λ key w x h. ground arith;
  get_config_agents = λ key j w. agents_rest sha256 _;
  get_secret_done = λ key w x h. as_secret-key key (w.secrets key) x h;
  get_secret_agents = λ key j w. agents_rest sha256 _;
  patch_secret_done = λ base obj w x h. patched_at obj x w (w.secrets (key_of obj)) h;
  patch_secret_agents =
      λ base obj j w ne. patched_elsewhere sha256 obj w j (w.secrets (key_of obj)) ne;
}
