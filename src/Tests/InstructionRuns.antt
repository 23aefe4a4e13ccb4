-- ===== src/Tests/InstructionRuns.antt =====
-- Plans at a backup and an address, and a checksum at a digest of one byte.
use turtles_etcd_restore.Base.{String, ◌≡◌, ◌↔◌, refl, List, [], ◌∷◌, All, length, ◌*◌, arith}
use turtles_etcd_restore.Api.{EtcdMachineBackup}
use turtles_etcd_restore.Instructions.{
  OneTimeInstruction, is_plan_applied, instructions_as_json, kill_all_instruction,
  start_rke2_instruction,
}
use turtles_etcd_restore.Instructions.Lossless.{instructions_as_json_iff}
use turtles_etcd_restore.Go.Bytes.{Bytes, hex, bytes_equal}
use turtles_etcd_restore.Go.Text.{trim_prefix}
use turtles_etcd_restore.Instructions.Checksum.{IsHexDigit, is_plan_applied_bounds}
use turtles_etcd_restore.Instructions.Distinct.{restore_plan, join_plan}
use turtles_etcd_restore.Instructions.Determined.{restore_plan_iff, join_plan_iff}
use turtles_etcd_restore.Tests.RestoreRuns.{backup}

abbrev digest : Bytes
digest = 171 ∷ []

is_plan_applied_bounds_example :
    (length (hex digest) ≡ 2 * length digest) × All IsHexDigit (hex digest)
unfolding hex is_plan_applied bytes_equal
is_plan_applied_bounds_example =
    is_plan_applied_bounds (λ plan. digest) [] (hex digest) (omega arith, tt) refl

abbrev other_backup : EtcdMachineBackup
other_backup = record backup { spec = record backup.spec { location = "/other" } }

restore_plan_iff_example : (restore_plan backup ≡ restore_plan other_backup) ↔ (
    trim_prefix backup.spec.location "file://" ≡ trim_prefix other_backup.spec.location "file://")
restore_plan_iff_example = restore_plan_iff backup other_backup

join_plan_iff_example :
    (join_plan "10.0.0.1" ≡ join_plan "10.0.0.2") ↔ (◌≡◌ {A = String} "10.0.0.1" "10.0.0.2")
join_plan_iff_example = join_plan_iff "10.0.0.1" "10.0.0.2"

instructions_as_json_iff_example :
    (instructions_as_json (kill_all_instruction ∷ [])
      ≡ instructions_as_json (start_rke2_instruction ∷ []))
    ↔ (◌≡◌ {A = List OneTimeInstruction} (kill_all_instruction ∷ []) (start_rke2_instruction ∷ []))
instructions_as_json_iff_example =
    instructions_as_json_iff (kill_all_instruction ∷ []) (start_rke2_instruction ∷ [])
