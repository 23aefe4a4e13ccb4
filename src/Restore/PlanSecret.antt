-- ===== src/Restore/PlanSecret.antt =====
-- `getPlanSecretForMachine`, `updatePlanSecretWithPlan` and `decompressPlanOutput`.
use turtles_etcd_restore.Base.{String, [], ◌∷◌, if◌then◌else◌, inl, inr}
use turtles_etcd_restore.Objects.{Machine, Secret}
use turtles_etcd_restore.Go.Outcome.{
  M, Outcome, err, pure, lift, call, on_err, deref, wrapped, ◌>>=◌,
}
use turtles_etcd_restore.Go.Bytes.{Bytes, ByteMap, bytes_equal, entry, set_entry, or_empty}
use turtles_etcd_restore.Go.Text.{join}
use turtles_etcd_restore.Client.{Client, Codec, tried}

-- `strings.Join([]string{name, "rke2config", "plan"}, "-")`
unfoldable pub plan_secret_name : String → String
plan_secret_name name = join (name ∷ "rke2config" ∷ "plan" ∷ []) "-"

abbrev pub with_content : Secret → Secret
with_content secret = record secret { content = or_empty secret.content }

module _ (c : Client) where
  -- `getPlanSecretForMachine`: a machine with no bootstrap reference is a nil dereference.
  unfoldable pub get_plan_secret_for_machine : Machine → M c.State Secret
  get_plan_secret_for_machine machine = do
    config_name ← lift (deref machine.config_ref)
    config ←
        on_err "failed to get RKE2Config"
          (call (c.get_config (record { namespace = machine.namespace; name = config_name })))
    on_err "failed to get plan secret" (
        call (
          c.get_secret
            (record { namespace = machine.namespace; name = plan_secret_name config.name })))

  -- `updatePlanSecretWithPlan`; the secret that the caller's pointer holds afterwards is returned.
  unfoldable pub update_plan_secret_with_plan : Secret → Bytes → M c.State Secret
  update_plan_secret_with_plan secret plan =
      if bytes_equal (entry secret.content "plan") plan then pure secret else do
        content ← lift (set_entry secret.content "plan" plan)
        on_err "failed to patch plan secret"
            (call (c.patch_secret secret (record secret { content = content })))

-- `decompressPlanOutput`
unfoldable pub decompress_plan_output : Codec → Secret → Outcome ByteMap
decompress_plan_output k secret = elim (k.new_gzip_reader (entry secret.content "applied-output")) [
  | inl e ↦ err e
  | inr reader ↦ elim (k.read_all reader) [
    | inl e ↦ err e
    | inr output ↦ wrapped "failed to unmarshal output" (tried (k.unmarshal_output output))
  ]
]
