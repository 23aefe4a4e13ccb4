-- ===== src/Sync/Extract.antt =====
-- `extractFieldsFromETCDSnapshotFile` and `findMachineForBackup`.
use turtles_etcd_restore.Base.{String, Bool, Option, none, some, List, [], ◌∷◌, ◌==◌, if◌then◌else◌}
use turtles_etcd_restore.Objects.{Machine, Cluster}
use turtles_etcd_restore.Unstructured.{
  Value, Fields, lookup, as_object, as_text, as_boolean, type_name,
}
use turtles_etcd_restore.Go.Text.{◌<>◌}
use turtles_etcd_restore.Go.Outcome.{M, Outcome, ok, err, panic, text, lift, call, on_err, ◌>>=◌}
use turtles_etcd_restore.Sync.Client.{SyncClient}

-- What the extraction returns.
pub record SnapshotFields : Type 0 where
  pub location : String
  pub node_name : String
  pub snapshot_name : String
  pub ready_to_use : Bool

infixl 5 ◌>=>◌
-- The next step of a function that returns at the first error.
abbrev pub ◌>=>◌ {ℓ κ} : {A : Type ℓ} {B : Type κ} → Outcome A → (A → Outcome B) → Outcome B
ok a >=> f = f a
err e >=> f = err e
panic >=> f = panic

-- A type assertion with its second result, and the error of a failed one.
abbrev pub asserted : {A : Type 0} → Option A → String → Outcome A
asserted none message = err (text message)
asserted (some a) message = ok a

-- `v, ok := fields[key].(T); if !ok { return … fmt.Errorf(message, fields[key]) }`
abbrev pub required : {A : Type 0} → (Value → Option A) → String → String → Fields → Outcome A
required as_type message key fields =
    asserted (as_type (lookup key fields)) (message <> type_name (lookup key fields))

-- `extractFieldsFromETCDSnapshotFile`
unfoldable pub extract_fields : Fields → Outcome SnapshotFields
extract_fields file =
    required as_object
      "failed to get metadata from etcd snapshot file, expected a map[string]interface{}, got "
      "metadata" file
    >=> λ metadata.
        required as_text
          "failed to get snapshotName from etcd snapshot file spec, expected a string, got " "name"
          metadata
        >=> λ snapshot_name.
            required as_object
              "failed to get spec from etcd snapshot file expected a map[string]interface{}, got "
              "spec" file
            >=> λ spec.
                required as_text
                  "failed to get location from etcd snapshot file spec, expected a string, got "
                  "location" spec
                >=> λ location.
                    required as_text
                      "failed to get nodeName from etcd snapshot file spec, expected a string, got "
                      "nodeName" spec
                    >=> λ node_name.
                        required as_object
                          "failed to get status from etcd snapshot file expected a map[string]interface{}, got "
                          "status" file
                        >=> λ status.
                            required as_boolean
                              "failed to get readyToUse from etcd snapshot file status, expected a bool, got "
                              "readyToUse" status
                            >=> λ ready_to_use. ok (record {
                              location = location;
                              node_name = node_name;
                              snapshot_name = snapshot_name;
                              ready_to_use = ready_to_use;
                            })

-- `machine.Status.NodeRef.Name == nodeName`, given the rest of the loop. The reference is nil for a
-- machine that has no node yet, and reading its name is then a nil dereference.
abbrev pub node_matches : Option String → String → String → Outcome String → Outcome String
node_matches none node_name name rest = panic
node_matches (some node) node_name name rest = if node == node_name then ok name else rest

-- The loop of `findMachineForBackup`.
unfoldable pub find_machine : String → String → List Machine → Outcome String
find_machine cluster_name node_name [] = ok ""
find_machine cluster_name node_name (machine ∷ rest) =
    let later = find_machine cluster_name node_name rest in
    if machine.cluster_name == cluster_name
    then node_matches machine.node_ref node_name machine.name later
    else later

-- `findMachineForBackup`
unfoldable pub find_machine_for_backup : (c : SyncClient) → Cluster → String → M c.State String
find_machine_for_backup c cluster node_name = do
  machines ← on_err "failed to list machines" (call (c.list_machines cluster.namespace))
  lift (find_machine cluster.name node_name machines)
