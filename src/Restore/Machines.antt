-- ===== src/Restore/Machines.antt =====
-- The bodies and the loops of `stopRKE2OnAllMachines` and `startRKE2OnAllMachines` over the
-- machines of the scope.
use turtles_etcd_restore.Base.{String, List, [], ◌∷◌, Bool, true, false, ◌&&◌, ◌==◌, if◌then◌else◌}
use turtles_etcd_restore.Objects.{Machine, Secret}
use turtles_etcd_restore.Go.Outcome.{M, pure, lift, on_err, wrapped, ◌>>=◌, ◌>>◌}
use turtles_etcd_restore.Go.Bytes.{Bytes, entry}
use turtles_etcd_restore.Instructions.{
  OneTimeInstruction, instructions_as_json, is_plan_applied, kill_all_instruction,
  remove_server_url_from_config, add_server_url_to_config, remove_etcd_data_instruction,
  manifest_removal_instruction, start_rke2_instruction,
}
use turtles_etcd_restore.Client.{Client, Codec}
use turtles_etcd_restore.Restore.PlanSecret.{
  with_content, get_plan_secret_for_machine, update_plan_secret_with_plan, decompress_plan_output,
}

-- What joining another machine runs.
unfoldable pub join_instructions : String → List OneTimeInstruction
join_instructions init_machine_ip =
    remove_server_url_from_config
    ∷ add_server_url_to_config init_machine_ip
    ∷ remove_etcd_data_instruction
    ∷ manifest_removal_instruction
    ∷ start_rke2_instruction
    ∷ []

module _ (c : Client) (k : Codec) where
  -- What each phase does with a plan secret that it has filled, from the test of the applied
  -- checksum on: `false` is the branch "Plan not applied yet".
  unfoldable pub finish_machine : Bytes → Secret → M c.State Bool
  finish_machine plan secret =
      if is_plan_applied k.sha256 plan (entry secret.content "applied-checksum")
      then (do
        lift (wrapped "failed to decompress plan output" (decompress_plan_output k secret))
        pure true)
      else pure false

  -- The middle of both loop bodies: read the plan secret, fill it, read it again.
  unfoldable pub apply_plan : Machine → Bytes → M c.State Bool
  unfolding finish_machine
  apply_plan machine plan = do
    secret ← on_err "failed to get plan secret for machine" (get_plan_secret_for_machine c machine)
    on_err "failed to patch plan secret" (update_plan_secret_with_plan c (with_content secret) plan)
    fresh ← on_err "failed to get plan secret for machine" (get_plan_secret_for_machine c machine)
    finish_machine plan fresh

  -- The loop body of `stopRKE2OnAllMachines`.
  unfoldable pub stop_machine : Machine → M c.State Bool
  unfolding apply_plan instructions_as_json
  stop_machine machine = do
    plan ← lift (
        wrapped "failed to get kill all instruction"
          (instructions_as_json (kill_all_instruction ∷ [])))
    apply_plan machine plan

  -- The loop of `stopRKE2OnAllMachines`, with `allMachinesReady`.
  unfoldable pub stop_machines : List Machine → Bool → M c.State Bool
  stop_machines [] ready = pure ready
  stop_machines (machine ∷ rest) ready = do
    applied ← stop_machine machine
    stop_machines rest (ready && applied)

  -- The loop body of `startRKE2OnAllMachines`; the init machine is passed over.
  unfoldable pub start_machine : String → String → Machine → M c.State Bool
  unfolding apply_plan instructions_as_json join_instructions
  start_machine init_name init_machine_ip machine =
      if machine.name == init_name then pure true else do
        plan ← lift (
            wrapped "failed to get start RKE2 instruction"
              (instructions_as_json (join_instructions init_machine_ip)))
        apply_plan machine plan

  -- The loop of `startRKE2OnAllMachines`.
  unfoldable pub start_machines : String → String → List Machine → Bool → M c.State Bool
  start_machines init_name init_machine_ip [] ready = pure ready
  start_machines init_name init_machine_ip (machine ∷ rest) ready = do
    applied ← start_machine init_name init_machine_ip machine
    start_machines init_name init_machine_ip rest (ready && applied)
