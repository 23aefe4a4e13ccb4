-- ===== src/Tests/ProgressRuns.antt =====
-- The theorems about progress at the states of the restore of two machines.
use turtles_etcd_restore.Base.{
  ◌≢◌, inl, inr, String, ◌≡◌, refl, true, some, [], ◌∷◌, All, arith, eq_iff,
}
use turtles_etcd_restore.Api.Phase
use turtles_etcd_restore.Go.Bytes.{Bytes, hex, bytes_equal_iff, index}
use turtles_etcd_restore.Go.Text.{join, ◌<>◌}
use turtles_etcd_restore.Go.Outcome.{ok}
use turtles_etcd_restore.Instructions.{is_plan_applied}
use turtles_etcd_restore.Instructions.Distinct.{kill_plan, restore_plan, start_plan, join_plan}
use turtles_etcd_restore.Objects.{Cluster, Secret, ConfigMeta}
use turtles_etcd_restore.Restore.PlanSecret.{plan_secret_name, decompress_plan_output}
use turtles_etcd_restore.Restore.Phases.{
  no_requeue, with_phase, stop_rke2_on_all_machines, restore_snapshot_on_init_machine,
  start_rke2_on_all_machines,
}
use turtles_etcd_restore.Restore.Scope.{get_internal_machine_ip}
use turtles_etcd_restore.Restore.Finish.{HasJoined, finished_reached}
use turtles_etcd_restore.Restore.Progress.{Settled, shutdown_reached, restore_reached}
use turtles_etcd_restore.Tests.World.{memory}
use turtles_etcd_restore.Tests.RestoreRuns.{
  codec, node, nodes, backup, scope, prod, halted, recovered, joined,
}

digest_accepts : (plan : Bytes) → is_plan_applied codec.sha256 plan (hex plan) ≡ true
unfolding is_plan_applied
digest_accepts plan = (bytes_equal_iff (hex plan) (hex plan)).1 refl

abbrev meta : String → ConfigMeta
meta name = record { name = name; namespace = "ns" }

abbrev secret_of : String → Bytes → Secret
secret_of name plan = record {
  name = name <> "-rke2config-plan";
  namespace = "ns";
  resource_version = "";
  content = some (("plan", plan) ∷ ("applied-checksum", hex plan) ∷ []);
}

pub halted-Settled :
    (cluster : Cluster)
    → All (Settled memory codec (record halted.store { cluster = cluster }) kill_plan) nodes
unfolding plan_secret_name join index decompress_plan_output
halted-Settled cluster = (
  (
    "a",
    meta "a",
    secret_of "a" kill_plan,
    [],
    refl,
    refl,
    refl,
    refl,
    digest_accepts kill_plan,
    refl,
  ),
  (
    (
      "b",
      meta "b",
      secret_of "b" kill_plan,
      [],
      refl,
      refl,
      refl,
      refl,
      digest_accepts kill_plan,
      refl,
    ),
    tt,
  ),
)

shutdown_reached_example :
    stop_rke2_on_all_machines memory codec scope halted
    ≡ (ok no_requeue, record halted { obj = with_phase Phase.shutdown halted.obj })
shutdown_reached_example = shutdown_reached memory codec scope halted (halted-Settled prod)

recovered-Settled : Settled memory codec recovered.store (restore_plan backup) (node "a" "10.0.0.1")
unfolding plan_secret_name join index decompress_plan_output
recovered-Settled = (
  "a",
  meta "a",
  secret_of "a" (restore_plan backup),
  [],
  refl,
  refl,
  refl,
  refl,
  digest_accepts (restore_plan backup),
  refl,
)

restore_reached_example :
    restore_snapshot_on_init_machine memory codec scope recovered
    ≡ (ok no_requeue, record recovered { obj = with_phase Phase.restore recovered.obj })
restore_reached_example =
    restore_reached memory codec scope (node "a" "10.0.0.1") recovered refl
      (ground (arith, eq_iff "file:///var/snap" "")) recovered-Settled

joined-start : Settled memory codec joined.store start_plan (node "a" "10.0.0.1")
unfolding plan_secret_name join index decompress_plan_output
joined-start = (
  "a",
  meta "a",
  secret_of "a" start_plan,
  [],
  refl,
  refl,
  refl,
  refl,
  digest_accepts start_plan,
  refl,
)

joined-others :
    All
      (HasJoined memory codec joined.store "a" (get_internal_machine_ip (node "a" "10.0.0.1")))
      nodes
unfolding plan_secret_name join index decompress_plan_output get_internal_machine_ip
joined-others = (
  inl refl,
  (
    inr (
      refl,
      (
        "b",
        meta "b",
        secret_of "b" (join_plan "10.0.0.1"),
        [],
        refl,
        refl,
        refl,
        refl,
        digest_accepts (join_plan "10.0.0.1"),
        refl,
      ),
    ),
    tt,
  ),
)

addressed : get_internal_machine_ip (node "a" "10.0.0.1") ≢ ""
unfolding get_internal_machine_ip
addressed = ground (arith, eq_iff "10.0.0.1" "")

finished_reached_example :
    start_rke2_on_all_machines memory codec scope joined
    ≡ (ok no_requeue, record joined { obj = with_phase Phase.finished joined.obj })
finished_reached_example =
    finished_reached memory codec scope (node "a" "10.0.0.1") joined refl addressed joined-start
      joined-others
