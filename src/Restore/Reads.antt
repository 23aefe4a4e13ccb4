-- ===== src/Restore/Reads.antt =====
-- What a run of the restore controller reads: the answers that `newScope` builds its scope from.
use turtles_etcd_restore.Base.{
  String, ◌≡◌, refl, sym, ap, ◌∙◌, ◌⊎◌, inl, inr, Bool, true, false, some, List, [], ◌∷◌, In, ◌==◌,
  ◌||◌, eq_iff, if◌then◌else◌,
}
use turtles_etcd_restore.Api.{EtcdSnapshotRestore, EtcdSnapshotSpec, EtcdMachineBackup}
use turtles_etcd_restore.Objects.{Key, Machine, Cluster}
use turtles_etcd_restore.Go.Outcome.{M, Reply, done, call}
use turtles_etcd_restore.Go.Rules.{
  Ensures, Ensures-pure, Ensures-raise, Ensures-if, Ensures-call, Ensures-on_err, Ensures-bind,
}
use turtles_etcd_restore.Client.{Client}
use turtles_etcd_restore.Restore.Scope.{Scope, empty_machine, find_init_machine, new_scope}

-- The keys of the cluster and of the backup that a restore names.
abbrev pub named_cluster : String → EtcdSnapshotSpec → Key
named_cluster namespace spec = record { namespace = namespace; name = spec.cluster_name }

abbrev pub named_backup : String → EtcdSnapshotSpec → Key
named_backup namespace spec = record { namespace = namespace; name = spec.etcd_machine_backup_name }

-- The init machine is one of the machines and has the name, unless none has it.
pub find_init-cases :
    (name : String) (machines : List Machine)
    → (find_init_machine name machines ≡ empty_machine)
      ⊎ (In (find_init_machine name machines) machines
          × ((find_init_machine name machines).name ≡ name))
unfolding find_init_machine
find_init-cases name [] = inl refl
find_init-cases name (machine ∷ rest) = go (machine.name == name) refl (find_init-cases name rest)
  where
    found : Bool → Machine
    found b = if b then machine else find_init_machine name rest

    go :
        (b : Bool)
        → (machine.name == name) ≡ b
        → (find_init_machine name rest ≡ empty_machine)
          ⊎ (In (find_init_machine name rest) rest × ((find_init_machine name rest).name ≡ name))
        → (found b ≡ empty_machine) ⊎ (In (found b) (machine ∷ rest) × ((found b).name ≡ name))
    go true e h = inr (inl refl, (eq_iff machine.name name).0 e)
    go false e (inl h) = inl h
    go false e (inr h) = inr (inr h.0, h.1)

module _ (c : Client) where
  -- The states of the client between the three reads, from the state before them.
  abbrev pub cluster_was_read : Key → c.State → c.State
  cluster_was_read key s = (c.get_cluster key s).1

  abbrev pub machines_were_read : Key → Cluster → c.State → c.State
  machines_were_read key cluster s =
      (c.list_machines cluster.namespace cluster.name (cluster_was_read key s)).1

  -- The three answers: the cluster that the restore names, the machines of this cluster, and the
  -- backup that the restore names, read one after the other from this state on.
  pub record HasRead (namespace : String) (spec : EtcdSnapshotSpec) (s : c.State)
      (cluster : Cluster) (machines : List Machine) (backup : EtcdMachineBackup) : Type 0 where
    pub cluster_read : (c.get_cluster (named_cluster namespace spec) s).0 ≡ done cluster
    pub machines_read :
        (c.list_machines cluster.namespace cluster.name
          (cluster_was_read (named_cluster namespace spec) s)).0
        ≡ done machines
    pub backup_read :
        (c.get_backup
          (named_backup namespace spec)
          (machines_were_read (named_cluster namespace spec) cluster s)).0
        ≡ done backup

  -- The state after the reads.
  abbrev pub after_reads : String → EtcdSnapshotSpec → Cluster → c.State → c.State
  after_reads namespace spec cluster s =
      (c.get_backup (named_backup namespace spec)
        (machines_were_read (named_cluster namespace spec) cluster s)).1

  -- A scope of what was read.
  pub record ReadScope (namespace : String) (spec : EtcdSnapshotSpec) (s : c.State) (scope : Scope)
      (t : c.State) : Type 0 where
    pub read : HasRead namespace spec s scope.cluster scope.machines scope.etcd_machine_backup
    pub init :
        scope.init_machine
        ≡ some (find_init_machine scope.etcd_machine_backup.spec.machine_name scope.machines)
    pub at : t ≡ after_reads namespace spec scope.cluster s

Ensures-call_at :
    {S A : Type 0} (f : S → Reply A × S) (s : S)
    → Ensures (λ t. t ≡ s) (call f) (λ a t. ((f s).0 ≡ done a) × (t ≡ (f s).1))
Ensures-call_at f s =
    Ensures-call f (λ t is a e. (ap (λ u. (f u).0) (sym is) ∙ e, ap (λ u. (f u).1) is))

-- The rest of a method, after an answer and the state that came with it.
Ensures-after :
    {S B : Type 0} {X : Type 0} {s : S} {Q : B → S → Type 0} (m : M S B)
    → (X → Ensures (λ t. t ≡ s) m Q)
    → Ensures (λ t. X × (t ≡ s)) m Q
Ensures-after m k = record { at = λ t (x, is) b e. (k x).at t is b e }

module _ (c : Client) where
  pub new_scope-Read :
      (restore : EtcdSnapshotRestore) (s : c.State)
      → Ensures
          (λ t. t ≡ s)
          (new_scope c restore)
          (λ scope t. ReadScope c restore.namespace restore.spec s scope t)
  unfolding new_scope
  new_scope-Read restore s =
      Ensures-if (restore.spec.cluster_name == "" || restore.spec.etcd_machine_backup_name == "") _
        _ (λ _. Ensures-raise _)
        (λ _. Ensures-bind _ _ (Ensures-on_err _ _ (Ensures-call_at _ s)) (λ cluster.
          Ensures-after _ (λ cluster_read. Ensures-bind _ _ (Ensures-call_at _ _) (λ machines.
            Ensures-after _ (λ machines_read.
              Ensures-bind _ _ (Ensures-on_err _ _ (Ensures-call_at _ _)) (λ backup.
                Ensures-after _ (λ backup_read. Ensures-pure _ (λ t is. record {
                  read = record {
                    cluster_read = cluster_read;
                    machines_read = machines_read;
                    backup_read = backup_read;
                  };
                  init = refl;
                  at = is;
                }))))))))
