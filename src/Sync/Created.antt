-- ===== src/Sync/Created.antt =====
-- A synchronisation creates no backup but those that a snapshot file asks for.
use turtles_etcd_restore.Base.{
  String, ◌≡◌, ◌≢◌, refl, false, List, [], ◌∷◌, In, inl, inr, ◌==◌, eq_iff,
}
use mathlib.Core.Path.{subst}
use turtles_etcd_restore.Api.{EtcdMachineBackup}
use turtles_etcd_restore.Objects.{Cluster}
use turtles_etcd_restore.Unstructured.{Fields}
use turtles_etcd_restore.Go.Outcome.{ok}
use turtles_etcd_restore.Go.Rules.{
  Keeps, Keeps-pure, Keeps-lift, Keeps-call, Keeps-on_err, Keeps-bind, Ensures, Leaves-bind,
  Keeps-cases, Ensures-lift, Ensures-call, Ensures-on_err, Ensures-bind, wrapped-eq_ok,
}
use turtles_etcd_restore.Sync.Client.{SyncClient}
use turtles_etcd_restore.Sync.Extract.{
  SnapshotFields, extract_fields, find_machine, find_machine_for_backup,
}
use turtles_etcd_restore.Sync.Reconcile.{backup_for, create_backup_for, sync_snapshot, sync_files}
use turtles_etcd_restore.Sync.Laws.{Rely, Wanted}

not_empty : {name : String} → (name == "") ≡ false → name ≢ ""
not_empty {name} e same = let b = (eq_iff name "").1 same in cc

module _ (c : SyncClient) (L : Rely c) (cluster : Cluster) where
  abbrev pub Found : String → String → Type 0
  Found node_name name =
      find_machine cluster.name node_name (L.machines cluster.namespace) ≡ ok name

  -- What the listing of the machines keeps, and the creation of a backup that is wanted, is kept.
  module _ {P : c.State → Type 0}
      (lists : (s : c.State) → P s → P (c.list_machines cluster.namespace s).1) where
    find-Keeps : (node_name : String) → Keeps P (find_machine_for_backup c cluster node_name)
    unfolding find_machine_for_backup
    find-Keeps node_name =
        Keeps-bind _ _ (Keeps-on_err _ _ (Keeps-call _ lists)) (λ ms. Keeps-lift _)

    pub find-Found :
        (node_name : String)
        → Ensures P (find_machine_for_backup c cluster node_name) (λ name s. Found node_name name)
    unfolding find_machine_for_backup
    find-Found node_name =
        Ensures-bind {R = λ ms _. ms ≡ L.machines cluster.namespace} _ _
          (Ensures-on_err _ _
            (Ensures-call _ (λ s h ms e. L.list_machines_done cluster.namespace s ms e)))
          (λ ms.
            Ensures-lift _ (λ name e s same.
              subst (λ x. find_machine cluster.name node_name x ≡ ok name) same e))

    create-Keeps :
        (snapshot : SnapshotFields) (name : String)
        → ((s : c.State) → P s → P (c.create_backup (backup_for cluster snapshot name) s).1)
        → Keeps P (create_backup_for c cluster snapshot name)
    unfolding create_backup_for
    create-Keeps snapshot name k = record { at = k }

    snapshot-Keeps :
        (file : Fields) (snapshot : SnapshotFields)
        → extract_fields file ≡ ok snapshot
        → ((backup : EtcdMachineBackup)
            → Wanted (L.machines cluster.namespace) cluster file backup
            → (s : c.State) → P s
            → P (c.create_backup backup s).1)
        → Keeps P (sync_snapshot c cluster snapshot)
    unfolding sync_snapshot
    snapshot-Keeps file snapshot e creates =
        Keeps-cases _ _ _
          (λ ready.
            Leaves-bind {R = λ name _. Found snapshot.node_name name} _ _
              (Keeps-on_err _ _ (find-Keeps snapshot.node_name))
              (Ensures-on_err _ _ (find-Found snapshot.node_name))
              (λ name. record {
                at = λ s h.
                    (Keeps-cases {P = P} _ _ _ (λ _. Keeps-pure _)
                        (λ some_name. create-Keeps snapshot name (
                          creates (backup_for cluster snapshot name)
                            (snapshot, name, e, ready, h.0, not_empty some_name, refl)))).at
                      s h.1;
              }))
          (λ _. Keeps-pure _)

    -- Let the answers of the API server be as the synchronisation relies on. A predicate of the
    -- state that listing the machines keeps, and that the creation of every backup keeps which one
    -- of the snapshot files asks for, is kept by the loop over these files, at every outcome: the
    -- loop creates nothing else.
    pub sync_files-Wanted :
        (files : List Fields)
        → ((file : Fields)
            → In file files
            → (backup : EtcdMachineBackup)
            → Wanted (L.machines cluster.namespace) cluster file backup
            → (s : c.State) → P s
            → P (c.create_backup backup s).1)
        → Keeps P (sync_files c cluster files)
    unfolding sync_files
    sync_files-Wanted [] creates = Keeps-pure _
    sync_files-Wanted (file ∷ rest) creates =
        Leaves-bind {R = λ snapshot _. extract_fields file ≡ ok snapshot} _ _ (Keeps-lift _)
          (Ensures-lift _ (λ snapshot e s h. wrapped-eq_ok _ (extract_fields file) e))
          (λ snapshot. record {
            at = λ s h.
                (Keeps-bind _ _ (snapshot-Keeps file snapshot h.0 (creates file (inl refl)))
                    (λ _. sync_files-Wanted rest (λ f i. creates f (inr i)))).at
                  s h.1;
          })
