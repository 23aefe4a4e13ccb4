-- ===== src/Sync/Backups.antt =====
-- A synchronisation that succeeds leaves a backup for each snapshot file that asks for one.
use turtles_etcd_restore.Base.{
  ap, if◌then◌else◌, String, ◌≡◌, ◌≢◌, refl, sym, ◌∙◌, true, List, [], ◌∷◌, In, inl, inr, ◌==◌,
  eq_iff,
}
use mathlib.Core.Path.{subst}
use turtles_etcd_restore.Api.{EtcdMachineBackup}
use turtles_etcd_restore.Objects.{Key, Cluster}
use turtles_etcd_restore.Unstructured.{Fields}
use turtles_etcd_restore.Go.Outcome.{
  pure, on_err, ok, Reply, done, fail, already_exists, not_found, conflict, other,
}
use turtles_etcd_restore.Go.Rules.{
  Keeps, Ensures, Ensures-if, Ensures-of, Ensures-lift, Ensures-on_err, Ensures-bind, wrapped-eq_ok,
}
use turtles_etcd_restore.Sync.Client.{SyncClient}
use turtles_etcd_restore.Sync.Extract.{SnapshotFields, extract_fields, find_machine_for_backup}
use turtles_etcd_restore.Sync.Reconcile.{
  backup_for, created, create_backup_for, sync_snapshot, sync_files,
}
use turtles_etcd_restore.Sync.Laws.{Rely, Wanted, Held, backup_key}
use turtles_etcd_restore.Sync.Created.{Found, find-Found, sync_files-Wanted}

module _ (c : SyncClient) (L : Rely c) (cluster : Cluster) where
  module _ (key : Key) where
    HeldIn : c.State → Type 0
    HeldIn s = Held (L.backup_at s key)

    files-HeldIn : (files : List Fields) → Keeps HeldIn (sync_files c cluster files)
    unfolding HeldIn
    files-HeldIn files =
        sync_files-Wanted c L cluster {P = HeldIn}
          (λ s h. L.list_machines_keeps cluster.namespace s key h) files
          (λ file i backup w s h. L.create_backup_keeps backup s key h)

  created-Held :
      (backup : EtcdMachineBackup) (s : c.State) (r : Reply Unit)
      → (c.create_backup backup s).0 ≡ r
      → created c r ≡ ok tt
      → Held (L.backup_at (c.create_backup backup s).1 (backup_key backup))
  created-Held backup s (done tt) e h = (backup, L.create_backup_done backup s e)
  created-Held backup s (fail already_exists) e h = L.create_backup_exists backup s e
  created-Held backup s (fail not_found) e h = cc
  created-Held backup s (fail conflict) e h = cc
  created-Held backup s (fail (other x)) e h = cc

  create-Held :
      (snapshot : SnapshotFields) (name : String)
      → Ensures
          (λ _. Unit)
          (create_backup_for c cluster snapshot name)
          (λ _ s. HeldIn (backup_key (backup_for cluster snapshot name)) s)
  unfolding create_backup_for HeldIn
  create-Held snapshot name = record {
    at = λ s h a e. created-Held (backup_for cluster snapshot name) s _ refl (cc);
  }

  backup_unique :
      (file : Fields) (snapshot : SnapshotFields) (backup : EtcdMachineBackup)
      → extract_fields file ≡ ok snapshot
      → Wanted (L.machines cluster.namespace) cluster file backup
      → (name : String) × (snapshot.ready_to_use ≡ true)
        × Found c L cluster snapshot.node_name name
        × (name ≢ "")
        × (backup ≡ backup_for cluster snapshot name)
  unfolding backup_for
  backup_unique file snapshot backup e (x, name, e', ready, on, some_name, is) =
      subst
        (λ y.
          (name : String) × (y.ready_to_use ≡ true)
          × Found c L cluster y.node_name name
          × (name ≢ "")
          × (backup ≡ backup_for cluster y name))
        (cc) (name, ready, on, some_name, is)

  named-Held :
      (snapshot : SnapshotFields) (name n : String)
      → name ≢ ""
      → Ensures
          (λ _. n ≡ name)
          (if n == "" then pure tt else create_backup_for c cluster snapshot n)
          (λ _ s. HeldIn (backup_key (backup_for cluster snapshot name)) s)
  named-Held snapshot name n some_name =
      Ensures-if (n == "") _ _
        (λ empty. record {
          at = λ s same a e. absurd (some_name (sym same ∙ (eq_iff n "").0 empty));
        })
        (λ _. record {
          at = λ s same a e.
              subst
                (λ x.
                  HeldIn (backup_key (backup_for cluster snapshot x))
                    (create_backup_for c cluster snapshot n s).1)
                same ((create-Held snapshot n).at s tt a e);
        })

  snapshot-Held :
      (file : Fields) (snapshot : SnapshotFields) (backup : EtcdMachineBackup)
      → extract_fields file ≡ ok snapshot
      → Wanted (L.machines cluster.namespace) cluster file backup
      → Ensures (λ _. Unit) (sync_snapshot c cluster snapshot) (λ _ s. HeldIn (backup_key backup) s)
  unfolding sync_snapshot
  snapshot-Held file snapshot backup e wanted =
      let (name, ready, on, some_name, is) = backup_unique file snapshot backup e wanted in
      Ensures-if snapshot.ready_to_use _ _
        (λ _.
          Ensures-bind {R = λ n _. n ≡ name}
            (on_err "failed to find machine for backup"
              (find_machine_for_backup c cluster snapshot.node_name))
            _
            (Ensures-on_err _ _ (
              Ensures-of {Q = λ n _. Found c L cluster snapshot.node_name n} (λ n s h. cc)
                (find-Found c L cluster {P = λ _. Unit} (λ _ _. tt) snapshot.node_name)))
            (λ n.
              Ensures-of (λ _ s h. subst (λ b. HeldIn (backup_key b) s) (sym is) h)
                (named-Held snapshot name n some_name)))
        (λ waits. record { at = λ s h a x. cc })

  files-Held :
      (files : List Fields) (file : Fields) (backup : EtcdMachineBackup)
      → In file files
      → Wanted (L.machines cluster.namespace) cluster file backup
      → Ensures (λ _. Unit) (sync_files c cluster files) (λ _ s. HeldIn (backup_key backup) s)
  unfolding sync_files
  files-Held [] file backup i wanted = elim i [ ]
  files-Held (x ∷ rest) file backup (inl here) wanted =
      Ensures-bind {R = λ snapshot _. extract_fields file ≡ ok snapshot} _ _
        (Ensures-lift _
          (λ snapshot e s h. ap extract_fields here ∙ wrapped-eq_ok _ (extract_fields x) e))
        (λ snapshot. record {
          at = λ s e.
              (Ensures-bind {R = λ _ s'. HeldIn (backup_key backup) s'}
                  {Q = λ _ s'. HeldIn (backup_key backup) s'} _ _
                  (snapshot-Held file snapshot backup e wanted)
                  (λ _. record {
                    at = λ s' h a _. (files-HeldIn (backup_key backup) rest).at s' h;
                  })).at
                s tt;
        })
  files-Held (x ∷ rest) file backup (inr i) wanted =
      Ensures-bind {R = λ _ _. Unit} _ _ (Ensures-lift _ (λ _ _ _ _. tt)) (λ snapshot.
        Ensures-bind {R = λ _ _. Unit} _ _ (record { at = λ _ _ _ _. tt })
          (λ _. files-Held rest file backup i wanted))

  -- Let the answers of the API server be as the synchronisation relies on. If the loop over the
  -- snapshot files succeeds, then afterwards a backup is held under the key of every backup that
  -- one of the files asks for.
  pub sync_files-Held :
      (files : List Fields) (file : Fields) (backup : EtcdMachineBackup)
      → In file files
      → Wanted (L.machines cluster.namespace) cluster file backup
      → (s : c.State) → (sync_files c cluster files s).0 ≡ ok tt
      → Held (L.backup_at (sync_files c cluster files s).1 (backup_key backup))
  unfolding HeldIn
  sync_files-Held files file backup i wanted s e =
      (files-Held files file backup i wanted).at s tt tt e
