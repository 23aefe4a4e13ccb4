-- ===== src/Instructions/Determined.antt =====
-- The plans of two restores are the same text only where they restore the same file, and those that
-- join a machine only where they join it to the same address.
use text.Mathlib.TextLemmas.{append_cancel_left, append_cancel_right}
use turtles_etcd_restore.Base.{ℕ, String, Option, none, some, ◌≡◌, ◌↔◌, ap, List, [], get_elem?}
use turtles_etcd_restore.Api.{EtcdMachineBackup}
use turtles_etcd_restore.Go.Text.{trim_prefix}
use turtles_etcd_restore.Instructions.{
  OneTimeInstruction, etcd_restore_instruction, add_server_url_to_config,
}
use turtles_etcd_restore.Instructions.Distinct.{restore_plan, join_plan}
use turtles_etcd_restore.Instructions.Lossless.{marshal-inj}

abbrev args_of : Option OneTimeInstruction → List String
args_of none = []
args_of (some i) = i.args

abbrev text_of : Option String → String
text_of none = ""
text_of (some s) = s

-- An argument of an instruction of a plan, by their positions.
abbrev argument : ℕ → ℕ → List OneTimeInstruction → String
argument i j l = text_of (get_elem? (args_of (get_elem? l i)) j)

restore_plan-inj :
    (a b : EtcdMachineBackup)
    → restore_plan a ≡ restore_plan b
    → trim_prefix a.spec.location "file://" ≡ trim_prefix b.spec.location "file://"
unfolding etcd_restore_instruction
restore_plan-inj a b e =
    append_cancel_left "--cluster-reset-restore-path=" _ _ (ap (argument 2 2) (marshal-inj _ _ e))

-- The plans of two restores are the same text, byte for byte, exactly where the locations of the
-- two backups are the same file, the prefix "file://" left off.
pub restore_plan_iff :
    (a b : EtcdMachineBackup)
    → (restore_plan a ≡ restore_plan b)
      ↔ (trim_prefix a.spec.location "file://" ≡ trim_prefix b.spec.location "file://")
unfolding etcd_restore_instruction
restore_plan_iff a b = (restore_plan-inj a b, λ e. cc e)

join_plan-inj : (a b : String) → join_plan a ≡ join_plan b → a ≡ b
unfolding add_server_url_to_config
join_plan-inj a b e =
    append_cancel_right a b _
      (append_cancel_left "echo 'server: https://" _ _ (ap (argument 1 1) (marshal-inj _ _ e)))

-- Two plans that join a machine are the same text, byte for byte, exactly where they join it to the
-- same address.
pub join_plan_iff : (a b : String) → (join_plan a ≡ join_plan b) ↔ (a ≡ b)
join_plan_iff a b = (join_plan-inj a b, ap join_plan)
