-- ===== src/Tests/HistoryRuns.antt =====
-- A whole restore of two machines, one `Reconcile` after the other.
use turtles_etcd_restore.Base.{
  ◌≤◌, String, ◌≡◌, ◌≢◌, refl, sym, ◌∙◌, ap, ◌⊎◌, inl, inr, Bool, true, false, Option, none, some,
  List, arith, eq_iff, ◌==◌,
}
use turtles_etcd_restore.Api.Phase
use turtles_etcd_restore.Api.{EtcdSnapshotRestore}
use turtles_etcd_restore.Objects.{Key, Machine, Secret, key_of}
use turtles_etcd_restore.Go.Bytes.{ByteMap, hex, bytes_equal, index, set_index}
use turtles_etcd_restore.Go.Text.{join, trim_prefix}
use turtles_etcd_restore.Go.Outcome.{Reply, done, fail, conflict, ◌>>=◌}
use turtles_etcd_restore.Instructions.{
  marshal, is_plan_applied, kill_all_instruction, remove_server_url_from_config,
  manifest_removal_instruction, etcd_restore_instruction, start_rke2_instruction,
  add_server_url_to_config, remove_etcd_data_instruction,
}
use turtles_etcd_restore.Instructions.Distinct.{kill_plan}
use turtles_etcd_restore.Client.{Client}
use turtles_etcd_restore.Client.Laws.{Rely}
use turtles_etcd_restore.Restore.Scope.{new_scope, find_init_machine, get_internal_machine_ip}
use turtles_etcd_restore.Restore.PlanSecret.{
  plan_secret_name, get_plan_secret_for_machine, update_plan_secret_with_plan,
  decompress_plan_output,
}
use turtles_etcd_restore.Restore.Machines.{
  apply_plan, stop_machine, stop_machines, start_machine, start_machines, finish_machine,
}
use turtles_etcd_restore.Restore.Phases.{
  stop_rke2_on_all_machines, restore_on, restore_snapshot_on_init_machine, start_init_machine,
  start_from, start_rke2_on_all_machines,
}
use turtles_etcd_restore.Restore.Reconcile.{
  all_running, set_paused, switch_phase, reconcile_scope, reconcile_normal, reconcile,
  reconcile_found, reconcile_object, patch_back,
}
use turtles_etcd_restore.Restore.Applied.{plan_key}
use turtles_etcd_restore.Restore.Spec.{Listed, Apart, Step}
use turtles_etcd_restore.Restore.Refines.{reconcile_normal-Step}
use turtles_etcd_restore.Restore.History.{
  Runs, change, between, none_left, HasRun, changes-le, RestoredBy, finished_restored,
}
use turtles_etcd_restore.Restore.SavedPhase.{PhaseLaws}
use turtles_etcd_restore.Tests.World.{World, memory, memory-Rely, patch}
use turtles_etcd_restore.Tests.RestoreRuns.{
  codec, nodes, at_phase, reporting, halted, recovered, joined,
}

abbrev restore_key : Key
restore_key = record { namespace = "ns"; name = "r" }

-- The patch of the status, which is refused where it was made from another phase.
abbrev locked : EtcdSnapshotRestore → World → Bool → Reply EtcdSnapshotRestore × World
locked obj w true = (done obj, record w { saved = obj })
locked obj w false = (fail conflict, w)

-- The client in memory, of a server whose machines are always these two.
abbrev steady : Client
steady = record {
  State = World;
  get_restore = memory.get_restore;
  get_cluster = memory.get_cluster;
  get_backup = memory.get_backup;
  get_config = memory.get_config;
  get_secret = memory.get_secret;
  list_machines = λ namespace name w. (done nodes, w);
  patch_cluster = memory.patch_cluster;
  patch_secret = memory.patch_secret;
  patch_restore = memory.patch_restore;
  patch_restore_status = λ base obj w. locked obj w (base.status.phase == w.saved.status.phase);
}

steady-Rely : Rely steady codec.sha256
steady-Rely =
    let open_rely : Rely memory codec.sha256 = memory-Rely codec.sha256 in
    record {
      secret_at = open_rely.secret_at;
      config_name = open_rely.config_name;
      get_config_agents = open_rely.get_config_agents;
      get_secret_done = open_rely.get_secret_done;
      get_secret_agents = open_rely.get_secret_agents;
      patch_secret_done = open_rely.patch_secret_done;
      patch_secret_agents = open_rely.patch_secret_agents;
    }

names_differ : plan_secret_name "a" ≢ plan_secret_name "b"
unfolding plan_secret_name join
names_differ = ground (arith, eq_iff "a-rke2config-plan" "b-rke2config-plan")

config_is : {a b : String} → some a ≡ some b → a ≡ b
config_is e = cc

-- The names of the plan secrets of two machines, by their references.
ref_names :
    (x y : Machine) (a b config config' : String)
    → x.config_ref ≡ some a
    → y.config_ref ≡ some b
    → x.config_ref ≡ some config
    → y.config_ref ≡ some config'
    → plan_key x config ≡ plan_key y config'
    → plan_secret_name a ≡ plan_secret_name b
ref_names x y a b config config' refs refs' has has' p =
    ap plan_secret_name (config_is (sym refs ∙ has))
    ∙ ap (λ (key : Key). key.name) p
    ∙ ap plan_secret_name (sym (config_is (sym refs' ∙ has')))

nodes-Apart : Apart nodes
nodes-Apart x y (inl e) (inl e') ne config config' has has' p =
    ne (ap (λ (m : Machine). m.name) (e ∙ sym e'))
nodes-Apart x y (inl e) (inr (inl e')) ne config config' has has' p = names_differ (
    ref_names x y "a" "b" config config' (ap (λ (m : Machine). m.config_ref) e)
      (ap (λ (m : Machine). m.config_ref) e') has has' p)
nodes-Apart x y (inr (inl e)) (inl e') ne config config' has has' p = names_differ (
    sym (
      ref_names x y "b" "a" config config' (ap (λ (m : Machine). m.config_ref) e)
        (ap (λ (m : Machine). m.config_ref) e') has has' p))
nodes-Apart x y (inr (inl e)) (inr (inl e')) ne config config' has has' p =
    ne (ap (λ (m : Machine). m.name) (e ∙ sym e'))
nodes-Apart x y (inr (inr e)) j ne config config' has has' p = absurd e
nodes-Apart x y i (inr (inr e)) ne config config' has has' p = absurd e

listed_nodes : {machines : List Machine} → done nodes ≡ done machines → nodes ≡ machines
listed_nodes e = cc

steady-Apart : (machines : List Machine) → Listed steady machines → Apart machines
steady-Apart machines (namespace, name, w, e) = rw (← listed_nodes e) nodes-Apart

-- The phase that the server has saved, and what changes it.
abbrev phase_in : World → String
phase_in w = w.saved.status.phase

patch_restore-phase :
    (base obj : EtcdSnapshotRestore) (w : World) (b : Bool)
    → (base.status.phase == w.saved.status.phase) ≡ b
    → (phase_in (locked obj w b).1 ≡ phase_in w)
      ⊎ ((phase_in w ≡ base.status.phase) × (phase_in (locked obj w b).1 ≡ obj.status.phase))
patch_restore-phase base obj w true e = inr (sym ((eq_iff _ _).0 e), refl)
patch_restore-phase base obj w false e = inl refl

patch-phase :
    (obj : Secret) (w : World) (o : Option (Option ByteMap))
    → phase_in (patch obj w o).1 ≡ phase_in w
patch-phase obj w none = refl
patch-phase obj w (some m) = refl

steady-PhaseLaws : PhaseLaws steady restore_key phase_in
steady-PhaseLaws = record {
  get_restore = λ w. refl;
  cluster = λ restore phase. record {
    get_cluster = λ key w h. h;
    get_backup = λ key w h. h;
    list_machines = λ namespace name w h. h;
    patch_cluster = λ base paused w named h. h;
    secrets = record {
      get_config = λ key w h. h;
      get_secret = λ key w h. h;
      patch_secret =
          λ machine base obj w ours of written h. patch-phase obj w (w.secrets (key_of obj)) ∙ h;
    };
  };
  patch_restore = λ base obj w. refl;
  patch_restore_status = λ base obj w. patch_restore-phase base obj w _ refl;
}

abbrev fresh : World
fresh = (at_phase "" (λ _. reporting kill_plan)).store

-- The state of the server after a `Reconcile`.
abbrev then_reconciled : World → World
then_reconciled w = (reconcile steady codec restore_key w).1

-- Three runs, between which the agents of the machines apply their plans.
whole : Runs steady codec restore_key phase_in (then_reconciled joined.store) fresh 3
unfolding stop_rke2_on_all_machines stop_machines stop_machine apply_plan finish_machine
    get_plan_secret_for_machine update_plan_secret_with_plan decompress_plan_output plan_secret_name
    join marshal kill_all_instruction is_plan_applied bytes_equal index set_index hex ◌>>=◌
    restore_snapshot_on_init_machine restore_on remove_server_url_from_config
    manifest_removal_instruction etcd_restore_instruction trim_prefix start_rke2_instruction
    add_server_url_to_config remove_etcd_data_instruction start_rke2_on_all_machines start_from
    start_init_machine start_machines start_machine get_internal_machine_ip reconcile_normal
    reconcile_scope all_running set_paused switch_phase new_scope find_init_machine reconcile
    reconcile_found reconcile_object patch_back
whole =
    change fresh (λ e. ground (arith, eq_iff Phase.shutdown ""))
      (between _ recovered.store refl (
        change recovered.store (λ e. ground (arith, eq_iff Phase.restore Phase.shutdown))
          (between _ joined.store refl (
            change joined.store (λ e. ground (arith, eq_iff Phase.finished Phase.restore))
              none_left))))

finishes : phase_in (then_reconciled joined.store) ≡ Phase.finished
unfolding whole
finishes = refl

changes-le_example : 3 ≤ 4
changes-le_example =
    changes-le steady codec restore_key phase_in steady-PhaseLaws (then_reconciled joined.store)
      fresh 3 whole

finished_restored_example :
    (w : World) × HasRun steady codec restore_key phase_in w whole
    × RestoredBy steady codec steady-Rely restore_key w
finished_restored_example =
    finished_restored steady codec steady-Rely restore_key phase_in steady-PhaseLaws steady-Apart
      (then_reconciled joined.store) fresh 3 whole refl finishes

reconcile_normal-Step_example :
    Step steady codec steady-Rely "ns" halted.obj.spec halted.store Phase.started
      (reconcile_normal steady codec halted).1
reconcile_normal-Step_example = reconcile_normal-Step steady codec steady-Rely steady-Apart halted
