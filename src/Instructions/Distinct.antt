-- ===== src/Instructions/Distinct.antt =====
-- The plans that the phases of a restore write are different texts, whatever the backup and the
-- address of the init machine.
use turtles_etcd_restore.Base.{ℕ, String, ◌≢◌, ap, List, [], ◌∷◌, arith, get_elem?}
use turtles_etcd_restore.Api.{EtcdMachineBackup}
use turtles_etcd_restore.Go.Bytes.{Bytes}
use turtles_etcd_restore.Instructions.{
  OneTimeInstruction, marshal, kill_all_instruction, etcd_restore_instruction,
  manifest_removal_instruction, remove_server_url_from_config, add_server_url_to_config,
  remove_etcd_data_instruction, start_rke2_instruction,
}

abbrev pub json : List OneTimeInstruction → Bytes
json instructions = marshal (record { one_time_instructions = instructions })

-- The plan of `stopRKE2OnAllMachines`.
abbrev pub kill_plan : Bytes
kill_plan = json (kill_all_instruction ∷ [])

-- The plan of `restoreSnaphotOnInitMachine`.
abbrev pub restore_plan : EtcdMachineBackup → Bytes
restore_plan backup = json (
    remove_server_url_from_config
    ∷ manifest_removal_instruction
    ∷ etcd_restore_instruction backup
    ∷ [])

-- The plan of `startRKE2OnAllMachines` for the init machine, and that for the others.
abbrev pub start_plan : Bytes
start_plan = json (start_rke2_instruction ∷ [])

abbrev pub join_plan : String → Bytes
join_plan ip = json (
    remove_server_url_from_config
    ∷ add_server_url_to_config ip
    ∷ remove_etcd_data_instruction
    ∷ manifest_removal_instruction
    ∷ start_rke2_instruction
    ∷ [])

-- A byte at which two texts differ tells them apart.
differ_at : (xs ys : Bytes) (i : ℕ) → get_elem? xs i ≢ get_elem? ys i → xs ≢ ys
differ_at xs ys i h e = h (ap (λ (l : Bytes). get_elem? l i) e)

-- Whatever the backup and the address of the init machine, the four plans that a restore writes,
-- to stop RKE2, to restore the snapshot, to start the init machine and to join another machine,
-- are four different JSON texts.
pub plans_distinct :
    (backup : EtcdMachineBackup) (ip : String)
    → (kill_plan ≢ restore_plan backup)
      × (kill_plan ≢ start_plan)
      × (kill_plan ≢ join_plan ip)
      × (restore_plan backup ≢ start_plan)
      × (restore_plan backup ≢ join_plan ip)
      × (start_plan ≢ join_plan ip)
unfolding marshal kill_all_instruction manifest_removal_instruction remove_server_url_from_config
    add_server_url_to_config remove_etcd_data_instruction start_rke2_instruction
    etcd_restore_instruction
plans_distinct backup ip = (
  differ_at kill_plan (restore_plan backup) 26 (ground arith),
  differ_at kill_plan start_plan 27 (ground arith),
  differ_at kill_plan (join_plan ip) 26 (ground arith),
  differ_at (restore_plan backup) start_plan 26 (ground arith),
  differ_at (restore_plan backup) (join_plan ip) 166 (ground arith),
  differ_at start_plan (join_plan ip) 26 (ground arith),
)
