-- ===== src/Restore/Frame.antt =====
-- What a reconciliation of a restore writes: `Spec.Paused` of the cluster, the plans of plan
-- secrets, and the restore object.
use turtles_etcd_restore.Base.{String, ◌≡◌, ◌≢◌, refl, sym, ap, ◌∙◌, Bool, Option, some, List, In}
use turtles_etcd_restore.Api.{EtcdSnapshotRestore, EtcdMachineBackup}
use turtles_etcd_restore.Objects.{Key, Machine, Cluster, Secret, ConfigMeta}
use turtles_etcd_restore.Go.Outcome.{M, ok, done, on_err, ◌>>=◌}
use turtles_etcd_restore.Go.Bytes.{Bytes, ByteMap, entry, or_empty, set_entry, entry-set_entry}
use mathlib.Core.Path.{subst}
use turtles_etcd_restore.Go.Rules.{
  Keeps, Keeps-pure, Keeps-lift, Keeps-call, Keeps-on_err, Keeps-bind, Keeps-if, Leaves-bind,
  Ensures-lift, Leaves-call, Ensures, Ensures-call, Ensures-on_err, Ensures-bind,
}
use turtles_etcd_restore.Instructions.Distinct.{kill_plan, restore_plan, start_plan, join_plan}
use turtles_etcd_restore.Client.{Client}
use turtles_etcd_restore.Go.Text.{◌<>◌, join as strings_join}
use turtles_etcd_restore.Restore.Phases.{with_phase}
use turtles_etcd_restore.Restore.Applied.{entry-or_empty, deref-eq_ok}
use turtles_etcd_restore.Restore.Missing.{other_name}
use turtles_etcd_restore.Restore.PlanSecret.{
  plan_secret_name, with_content, get_plan_secret_for_machine, update_plan_secret_with_plan,
}

-- The plans that a restore writes.
pub data RestorePlan : Bytes → Type 0 where
  kill : RestorePlan kill_plan
  recover : (backup : EtcdMachineBackup) → RestorePlan (restore_plan backup)
  start : RestorePlan start_plan
  join : (ip : String) → RestorePlan (join_plan ip)

-- The second secret is the first but for its plan, which is one that a restore writes.
abbrev pub PlanWritten : Secret → Secret → Type 0
PlanWritten base obj =
    (obj ≡ record base { content = obj.content })
    × RestorePlan (entry obj.content "plan")
    × ((j : String) → "plan" ≢ j → entry obj.content j ≡ entry base.content j)

-- The cluster of this key, as the server answers it, and as it answers a patch of its `Spec.Paused`.
pub data NamedCluster (c : Client) (key : Key) : Cluster → Type 0 where
  answered :
      (cluster : Cluster) (s : c.State)
      → (c.get_cluster key s).0 ≡ done cluster
      → NamedCluster c key cluster
  patched :
      (cluster x : Cluster) (paused : Bool) (s : c.State)
      → NamedCluster c key cluster
      → (c.patch_cluster cluster (record cluster { paused = paused }) s).0 ≡ done x
      → NamedCluster c key x

-- A machine that the server lists for the cluster of this key.
pub record MachineOf (c : Client) (key : Key) (machine : Machine) : Type 0 where
  pub cluster : Cluster
  pub machines : List Machine
  pub named : NamedCluster c key cluster
  pub at : c.State
  pub listed : (c.list_machines cluster.namespace cluster.name at).0 ≡ done machines
  pub there : In machine machines

-- The plan secret of a machine, as the server answers it: it has the name of the bootstrap
-- configuration with `-rke2config-plan` behind it, in the machine's namespace. Of its content, what
-- its entries are is taken, so that no content and an empty one are the same.
pub record PlanSecretOf (c : Client) (machine : Machine) (base : Secret) : Type 0 where
  pub config : String
  pub meta : ConfigMeta
  pub answer : Secret
  pub before : c.State
  pub later : c.State
  pub refers : machine.config_ref ≡ some config
  pub config_read :
      (c.get_config (record { namespace = machine.namespace; name = config }) before).0 ≡ done meta
  pub secret_read :
      (c.get_secret
        (record { namespace = machine.namespace; name = meta.name <> "-rke2config-plan" })
        later).0
      ≡ done answer
  pub same : base ≡ record answer { content = base.content }
  pub entries : (j : String) → entry base.content j ≡ entry answer.content j

-- A predicate of the state that the calls for the plan secrets of these machines keep.
pub record SecretFrame (c : Client) (Ours : Machine → Type 0) (P : c.State → Type 0) : Type 0 where
  pub get_config : (key : Key) (s : c.State) → P s → P (c.get_config key s).1
  pub get_secret : (key : Key) (s : c.State) → P s → P (c.get_secret key s).1
  pub patch_secret :
      (machine : Machine) (base obj : Secret) (s : c.State)
      → Ours machine
      → PlanSecretOf c machine base
      → PlanWritten base obj
      → P s
      → P (c.patch_secret base obj s).1

-- The cluster that a restore names.
abbrev pub cluster_of : EtcdSnapshotRestore → Key
cluster_of restore = record { namespace = restore.namespace; name = restore.spec.cluster_name }

-- A predicate of the state that the reads keep, and the writes that the restore of the cluster of
-- this key may make: to `Spec.Paused` of this cluster, and to the plan secrets of its machines.
pub record ClusterFrame (c : Client) (key : Key) (P : c.State → Type 0) : Type 0 where
  pub get_cluster : (key' : Key) (s : c.State) → P s → P (c.get_cluster key' s).1
  pub get_backup : (key' : Key) (s : c.State) → P s → P (c.get_backup key' s).1
  pub list_machines :
      (namespace name : String) (s : c.State) → P s → P (c.list_machines namespace name s).1
  pub patch_cluster :
      (base : Cluster) (paused : Bool) (s : c.State)
      → NamedCluster c key base
      → P s
      → P (c.patch_cluster base (record base { paused = paused }) s).1
  pub secrets : SecretFrame c (MachineOf c key) P

-- The restore object of this key, as the server answers it.
abbrev pub NamedRestore : (c : Client) → Key → EtcdSnapshotRestore → Type 0
NamedRestore c key restore = (s : c.State) × ((c.get_restore key s).0 ≡ done restore)

-- What the pointer to the restore object may hold after its first patch, but for the phase: what
-- was read, or what the server answered to a patch of its phase.
pub data PatchAnswer (c : Client) (base : EtcdSnapshotRestore) : EtcdSnapshotRestore → Type 0 where
  unanswered : PatchAnswer c base base
  answer :
      (phase : String) (obj : EtcdSnapshotRestore) (s : c.State)
      → (c.patch_restore base (with_phase phase base) s).0 ≡ done obj
      → PatchAnswer c base obj

-- A predicate of the state that the reads keep, and the writes that a reconciliation of the restore
-- object of this key may make: those of a restore of the cluster that the object names, and the
-- patches of this object in nothing but its phase.
pub record Frame (c : Client) (key : Key) (P : c.State → Type 0) : Type 0 where
  pub get_restore : (s : c.State) → P s → P (c.get_restore key s).1
  pub cluster :
      (restore : EtcdSnapshotRestore)
      → NamedRestore c key restore
      → ClusterFrame c (cluster_of restore) P
  pub patch_restore :
      (base : EtcdSnapshotRestore) (phase : String) (s : c.State)
      → NamedRestore c key base
      → P s
      → P (c.patch_restore base (with_phase phase base) s).1
  pub patch_restore_status :
      (base obj : EtcdSnapshotRestore) (phase : String) (s : c.State)
      → NamedRestore c key base
      → PatchAnswer c base obj
      → P s
      → P (c.patch_restore_status base (with_phase phase obj) s).1

other_entry :
    (content content' : Option ByteMap) (plan : Bytes) (j : String)
    → set_entry content "plan" plan ≡ ok content'
    → "plan" ≢ j
    → entry content' j ≡ entry content j
other_entry content content' plan j set ne =
    let e = entry-set_entry content "plan" j plan set in rw (other_name "plan" j ne) at e

-- The plan secret with a content of its own, where it had none.
pub filled-PlanSecretOf :
    (c : Client) (machine : Machine) (x : Secret)
    → PlanSecretOf c machine x
    → PlanSecretOf c machine (with_content x)
filled-PlanSecretOf c machine x h = record {
  config = h.config;
  meta = h.meta;
  answer = h.answer;
  before = h.before;
  later = h.later;
  refers = h.refers;
  config_read = h.config_read;
  secret_read = h.secret_read;
  same = ap (λ (y : Secret). record y { content = or_empty x.content }) h.same;
  entries = λ j. sym (entry-or_empty x.content j) ∙ h.entries j;
}

pub get_plan-PlanSecretOf :
    (c : Client) {P : c.State → Type 0} (machine : Machine)
    → Ensures P (get_plan_secret_for_machine c machine) (λ x _. PlanSecretOf c machine x)
unfolding get_plan_secret_for_machine plan_secret_name strings_join
get_plan-PlanSecretOf c machine =
    Ensures-bind {R = λ config _. machine.config_ref ≡ some config} _ _
      (Ensures-lift _ (λ config e s h. deref-eq_ok _ e))
      (λ config.
        Ensures-bind
          {R = λ meta _.
            (machine.config_ref ≡ some config)
            × ((s : c.State) × ((c.get_config
                    (record { namespace = machine.namespace; name = config }) s).0
                  ≡ done meta))}
          _ _ (Ensures-on_err _ _ (Ensures-call _ (λ s has meta e. (has, (s, e)))))
          (λ meta. Ensures-on_err _ _ (
            Ensures-call _ (λ later (has, (before, e)) x e'. record {
              config = config;
              meta = meta;
              answer = x;
              before = before;
              later = later;
              refers = has;
              config_read = e;
              secret_read = e';
              same = refl;
              entries = λ j. refl;
            }))))

-- One of the machines, if it has a bootstrap reference.
abbrev pub Known : (Machine → Type 0) → Machine → Type 0
Known Ours machine = (config : String) → machine.config_ref ≡ some config → Ours machine

module _ (c : Client) {Ours : Machine → Type 0} {P : c.State → Type 0}
    (F : SecretFrame c Ours P) where
  pub get_plan-Frame : (machine : Machine) → Keeps P (get_plan_secret_for_machine c machine)
  unfolding get_plan_secret_for_machine
  get_plan-Frame machine = Keeps-bind _ _ (Keeps-lift _) (λ name.
      Keeps-bind _ _ (Keeps-on_err _ _ (Keeps-call _ (F.get_config _)))
        (λ x. Keeps-on_err _ _ (Keeps-call _ (F.get_secret _))))

  -- A read of the plan secret, with what is done with it.
  pub with_plan-Frame :
      {A : Type 0} (machine : Machine) (message : String) (g : Secret → M c.State A)
      → ((x : Secret) → PlanSecretOf c machine x → Keeps P (g x))
      → Keeps P (on_err message (get_plan_secret_for_machine c machine) >>= g)
  with_plan-Frame machine message g k =
      Leaves-bind {R = λ x _. PlanSecretOf c machine x} _ _
        (Keeps-on_err _ _ (get_plan-Frame machine))
        (Ensures-on_err _ _ (get_plan-PlanSecretOf c machine))
        (λ x. record { at = λ s (of, h). (k x of).at s h })

  pub update-Frame :
      (machine : Machine) (x : Secret) (plan : Bytes)
      → Known Ours machine
      → PlanSecretOf c machine x
      → RestorePlan plan
      → Keeps P (update_plan_secret_with_plan c x plan)
  unfolding update_plan_secret_with_plan
  update-Frame machine x plan known of one = Keeps-if _ _ _ (Keeps-pure _) (
      Leaves-bind {R = λ content _. set_entry x.content "plan" plan ≡ ok content} _ _ (Keeps-lift _)
        (Ensures-lift _ (λ content set _ _. set))
        (λ content. Keeps-on_err _ _ (
          Leaves-call _ (λ s (set, h).
            F.patch_secret machine x (record x { content = content }) s (known of.config of.refers)
              of
              (
                refl,
                subst RestorePlan (sym (entry-set_entry x.content "plan" "plan" plan set)) one,
                λ j ne. other_entry x.content content plan j set ne,
              )
              h))))
