-- ===== src/Lib.antt =====
-- Rancher Turtles etcd restore: an operator that saves and restores the etcd database of RKE2
-- clusters which Cluster API manages.
--
-- The parts of the program. The restore controller takes an `ETCDSnapshotRestore` through its
-- phases: it pauses the cluster, stops RKE2 on all machines, restores the snapshot on the machine
-- of the backup, starts RKE2 there and then on the others, and unpauses the cluster. It acts on a
-- machine by a plan, a list of instructions in JSON, that it writes into the machine's plan secret;
-- the system agent of the machine carries the plan out and reports the plan's SHA-256 in the same
-- secret. The sync controller makes an `EtcdMachineBackup` for each snapshot file of a workload
-- cluster, which a restore then names. The backup controller does nothing yet. The webhook gives
-- each `RKE2Config` the objects and files that the system agent of its machine needs, with the
-- plan secret among them.
--
-- Which file models which part, by paths from the repository's root:
--   * Instructions: internal/controller/instructions.go; Types has `OneTimeInstruction`, Json the
--     rules of `json.Marshal` for it, Decode and RoundTrip a reader of its strings, Members and
--     Unmarshal of its objects, and Lossless, Distinct, Determined and Checksum the theorems.
--   * Restore: internal/controller/etcdsnapshotrestore_controller.go. Scope is `newScope` and
--     `getInternalMachineIP`; PlanSecret is `getPlanSecretForMachine`, `updatePlanSecretWithPlan`
--     and `decompressPlanOutput`; Machines has the loops over the machines; Phases has
--     `stopRKE2OnAllMachines`, `restoreSnaphotOnInitMachine` and `startRKE2OnAllMachines`;
--     Reconcile has `reconcileNormal`, `reconcileDelete` and `Reconcile`. The other files have the
--     theorems: Applied and Loops on plan secrets, Stopped, Restored, Joined and Started on the
--     phases, Progress and Finish on when they move on, Reported and Advances on when a whole
--     `Reconcile` does, Order on their order, Missing on a backup that names no machine, Refused on
--     a cluster that cannot be paused, Reads on what `newScope` has read, Pausing on when the
--     cluster is paused, Saved on when the restore object is saved. Frame says what a run may write
--     at all, for any predicate that these writes keep; Work, Normal and Writes go up from the
--     machines to `Reconcile`. Spec is the specification of a step of a restore, over the state
--     that the step begins in and what the server answers from there on; Steps and Refines are the
--     refinement of `reconcileNormal` to it, SavedPhase what a whole `Reconcile` makes of the phase that the
--     server has saved, and History what follows for runs of it one after the other, with others
--     at work between them.
--   * Api: api/v1alpha1. Api itself has the two resources as values, with the fields that the
--     controllers use, and Phase the phases. Structs has all structs of the two files of types as
--     they lie in memory, with Kinds for their arrays and zero values; Memory is the memory;
--     DeepCopy is zz_generated.deepcopy.go, with Views and Deep for what it is to be copied deeply
--     and Apart for the theorem; Register is groupversion_info.go and the two `init` functions.
--   * Sync: internal/controller/etcdsnaphotsync_controller.go. Extract is
--     `extractFieldsFromETCDSnapshotFile` and `findMachineForBackup`, Reconcile is `Reconcile` and
--     the map function of its watch; Find, Fields, Created, Backups and Whole have the theorems,
--     and Placed one on this controller and the restore controller together.
--   * Backup: internal/controller/etcdmachinebackup_controller.go; Reads has the theorem.
--   * Webhook: internal/webhook. Resources is `createSecretPlanResources` and
--     `ensureServiceAccountSecretPopulated`, Files has what is added to the configuration, Default
--     is `Default`, Script the text of the install script; Created, Complete, Defaulted and Token
--     have the theorems, and Served one on the webhook and the restore controller together.
--   * Manager: cmd/main.go. Flags is `initFlags` with the variables, Setup has `setupChecks`,
--     `setupReconcilers` and `setupWebhooks`, Main `init` and `main`; Controllers has the
--     `SetupWithManager` functions of internal/controller and internal/webhook, and Framework what
--     is used of controller-runtime, Cluster API and pflag. Registry has what it is to be known to
--     the scheme and registered with a manager, Facts the rules for it; Starts, Serves and
--     Parsed have the theorems.
--   * Objects and Unstructured: the fields of other projects' objects that the code reads, and the
--     values of unstructured ones. Go: errors, panics, methods on a state, bytes and texts.
--   * Tests: clients in memory that meet the assumptions, and the theorems on concrete runs.
--
-- State and errors. A method is a function from a state to an outcome and a state, so what was
-- written before an error stays written. An outcome is a value, an error or a panic; a nil
-- dereference and a write to a nil map are panics. An object that the code changes through a
-- pointer is handed on as a value: the restore object and the client's state together are the
-- memory of the restore controller. Only DeepCopy, whose work is on memory, has one: a cell for
-- each array that was allocated, where a variable that `new` makes is an array of one element. A
-- slice is the number of a cell, or nil, and a pointer has an index beside it. The elements of an
-- array are read before the loop that copies them, which does not write to it. A slice is a whole
-- array there, as `make` gives it and the code never cuts it. Everywhere else a value is copied by
-- being used.
--
-- What is a parameter. The API server with everything that acts on it is the state of a client
-- (Client, Sync/Client, Webhook/Client), whose calls may change it in any way. SHA-256, gzip and
-- the decoding of saved outputs are a codec; the retries of client-go, the kubeconfig writer, the
-- text of a kind and `json.MarshalIndent` are parameters of the webhook. What the theorems rely on
-- is named: Client/Laws says that nobody but the system agents changes plan secrets while a call
-- runs, and that an agent keeps the plan and reports either what it did or the checksum of the
-- plan; Restore/Pausing that a patch of a cluster sets what it asks for; Restore/SavedPhase that
-- the phase which the server has saved for a restore is changed by patches of the status only, and
-- by these only from the phase that they were made from, as their optimistic lock has it; Sync/Laws
-- says that the machines stay and that no backup is deleted during a loop, Webhook/Created that no
-- object is deleted meanwhile, Webhook/Token that a retry returns what a call returned,
-- Webhook/Served that reads delete nothing and what the restore controller sees of a server,
-- Manager/Registry what it is to be registered with a manager, and Manager/Parsed that pflag stores
-- the defaults and then what the command line gives. The refinement in Restore needs that the
-- server lists no two machines of different names with one plan secret. The types of other projects
-- in the structs of api/v1alpha1 and their deep copies are parameters, which Api/DeepCopy/Deep
-- supposes to be deep; Api/Register takes controller-runtime's scheme builder, of which it supposes
-- that `Register` adds types and takes none away.
--
-- Loops go over lists and end by themselves, so that they need no fuel. A list of machines is what
-- the client answers, of any length. The reader of JSON strings in Instructions/RoundTrip has as
-- many rounds as the text has bytes, which is enough, since a character takes one byte at least.
--
-- What is not modelled: logging, the texts that describe the flags, and the tags that say how the
-- API's structs are written in JSON, which only other projects' code reads; the tests under test/
-- and beside the controllers; manifests, scripts and build files. What a shell does with the
-- instructions is not modelled either.
pub mod Base
pub mod Go
pub mod Manager
pub mod Objects
pub mod Api
pub mod Instructions
pub mod Client
pub mod Restore
pub mod Unstructured
pub mod Sync
pub mod Backup
pub mod Webhook
mod Tests
