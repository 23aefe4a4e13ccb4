-- ===== src/Sync/Placed.antt =====
-- The two controllers together: a backup that the synchronisation makes of a snapshot, and the
-- machine on which a restore of this backup restores it.
use turtles_etcd_restore.Base.{
  ◌≡◌, ◌≢◌, refl, sym, ap, ◌∙◌, String, Bool, true, false, some, List, [], ◌∷◌, In, inl, inr, ◌==◌,
  eq_iff, if◌then◌else◌,
}
use turtles_etcd_restore.Objects.{Machine, Cluster}
use turtles_etcd_restore.Go.Outcome.{ok}
use turtles_etcd_restore.Restore.Scope.{find_init_machine}
use turtles_etcd_restore.Sync.Extract.{SnapshotFields, find_machine}
use turtles_etcd_restore.Sync.Find.{find_machine_found}
use turtles_etcd_restore.Sync.Reconcile.{backup_for}

either_found :
    (b : Bool) (x y : Machine) (rest : List Machine) (name : String)
    → (b ≡ true → x.name ≡ name)
    → (b ≡ false → In y rest × (y.name ≡ name))
    → In (if b then x else y) (x ∷ rest) × ((if b then x else y).name ≡ name)
either_found true x y rest name h k = (inl refl, h refl)
either_found false x y rest name h k = let (i, e) = k refl in (inr i, e)

-- Where a machine of the list has the name, the search finds a machine of the list with the name.
find_init_machine_found :
    (name : String) (machines : List Machine) (m : Machine)
    → In m machines
    → m.name ≡ name
    → In (find_init_machine name machines) machines
      × ((find_init_machine name machines).name ≡ name)
unfolding find_init_machine
find_init_machine_found name [] m i e = absurd i
find_init_machine_found name (x ∷ rest) m (inl same) e =
    let named = (eq_iff x.name name).1 (ap (λ (y : Machine). y.name) (sym same) ∙ e) in
    either_found (x.name == name) x _ rest name (eq_iff x.name name).0 (λ h. cc (h, named))
find_init_machine_found name (x ∷ rest) m (inr i) e =
    either_found (x.name == name) x _ rest name (eq_iff x.name name).0
      (λ h. find_init_machine_found name rest m i e)

-- Let the synchronisation find a machine for a snapshot, so that it makes a backup of it. If the
-- machines of the cluster that it has seen are there when a restore of this backup begins, and no
-- two machines then have one name, then the init machine of the restore is a machine of the
-- cluster on the node on which the snapshot was taken.
pub restored_where_taken :
    (cluster : Cluster) (snapshot : SnapshotFields) (name : String) (seen now : List Machine)
    → find_machine cluster.name snapshot.node_name seen ≡ ok name
    → name ≢ ""
    → ((m : Machine) → In m seen → m.cluster_name ≡ cluster.name → In m now)
    → ((x y : Machine) → In x now → In y now → x.name ≡ y.name → x ≡ y)
    → let init = find_init_machine (backup_for cluster snapshot name).spec.machine_name now in
      In init now × (init.cluster_name ≡ cluster.name) × (init.node_ref ≡ some snapshot.node_name)
unfolding backup_for
restored_where_taken cluster snapshot name seen now found named stay unique =
    elim (find_machine_found cluster.name snapshot.node_name seen name found) [
      | inl e ↦ absurd (named e)
      | inr (m, i, c, n, e) ↦
          let (j, k) = find_init_machine_found name now m (stay m i c) e in
          let same = unique (find_init_machine name now) m j (stay m i c) (k ∙ sym e) in
          (
            j,
            ap (λ (x : Machine). x.cluster_name) same ∙ c,
            ap (λ (x : Machine). x.node_ref) same ∙ n,
          )
    ]
