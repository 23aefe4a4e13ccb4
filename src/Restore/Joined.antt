-- ===== src/Restore/Joined.antt =====
-- The loop of `startRKE2OnAllMachines` over the machines that join the init machine.
use turtles_etcd_restore.Base.{
  String, ◌≡◌, ◌≢◌, sym, ◌∙◌, ◌⊎◌, inl, inr, Bool, true, false, ◌&&◌, some, List, [], ◌∷◌, All,
  ◌==◌, Bool-cases,
}
use turtles_etcd_restore.Objects.{Key, Machine}
use turtles_etcd_restore.Go.Outcome.{pure, ◌>>=◌}
use turtles_etcd_restore.Go.Rules.{
  Keeps, Keeps-pure, Keeps-on_err, Keeps-bind, Leaves-bind, Leaves-of, Ensures, Ensures-pure,
  Ensures-on_err, Ensures-bind, Ensures-of,
}
use turtles_etcd_restore.Go.Bytes.{Bytes}
use turtles_etcd_restore.Instructions.Distinct.{join_plan}
use turtles_etcd_restore.Client.{Client, Codec}
use turtles_etcd_restore.Client.Laws.{Rely}
use turtles_etcd_restore.Restore.PlanSecret.{with_content}
use turtles_etcd_restore.Restore.Machines.{apply_plan, start_machine, start_machines}
use turtles_etcd_restore.Restore.Applied.{
  plan_key, Reported, Reports, Read, get_plan-Reported, get_plan-Read, update-Keeps,
  AgentStep-ReportedIn,
}
use turtles_etcd_restore.Restore.Loops.{
  both_true, finish-Keeps, apply_plan-Reported, apply_plan-Reports,
}

-- The plan secret of the machine is not the one under the key.
abbrev pub Elsewhere : Key → Machine → Type 0
Elsewhere key machine =
    (config : String) → machine.config_ref ≡ some config → plan_key machine config ≢ key

module _ (c : Client) (k : Codec) (L : Rely c k.sha256) where
  -- Applying any plan to a machine leaves what the secret under another key reports.
  pub apply_plan-Elsewhere :
      (key : Key) (reported plan : Bytes) (machine : Machine)
      → Elsewhere key machine
      → Keeps (Reported c k.sha256 L key reported) (apply_plan c k machine plan)
  unfolding apply_plan
  apply_plan-Elsewhere key reported plan machine elsewhere =
      Leaves-bind {R = Read c k.sha256 L machine} _ _
        (Keeps-on_err _ _ (get_plan-Reported c k.sha256 L key reported machine))
        (Ensures-on_err _ _ (get_plan-Read c k.sha256 L machine))
        (λ x.
          Leaves-bind {R = λ _ _. Unit} _ _
            (Keeps-on_err _ _ (record {
              at = λ s (read, here).
                  (update-Keeps c k.sha256 L {P = Reported c k.sha256 L key reported}
                      (with_content x) plan
                      (λ base obj t e. AgentStep-ReportedIn k.sha256 (
                        L.patch_secret_agents base obj key t
                          (λ p. elsewhere read.0 read.1 (sym read.3 ∙ (sym e ∙ p)))))).at
                    s here;
            }))
            (record { at = λ _ _ _ _. tt })
            (λ _.
              Leaves-of (λ s h. h.1)
                (Keeps-bind _ _
                  (Keeps-on_err _ _ (get_plan-Reported c k.sha256 L key reported machine))
                  (finish-Keeps c k L plan))))

  module _ (init_name ip : String) where
    start_machine_init :
        (machine : Machine)
        → (machine.name == init_name) ≡ true
        → start_machine c k init_name ip machine ≡ pure true
    unfolding start_machine ◌>>=◌
    start_machine_init machine is = rw is

    start_machine_other :
        (machine : Machine)
        → (machine.name == init_name) ≡ false
        → start_machine c k init_name ip machine ≡ apply_plan c k machine (join_plan ip)
    unfolding start_machine ◌>>=◌
    start_machine_other machine isnt = rw isnt

    -- The loop keeps what holds of a state, if joining a machine that is not the init machine does.
    pub start_machines-Keeps :
        {P : c.State → Type 0} (machines : List Machine) (ready : Bool)
        → All
            (λ machine.
              (machine.name == init_name) ≡ false → Keeps P (apply_plan c k machine (join_plan ip)))
            machines
        → Keeps P (start_machines c k init_name ip machines ready)
    unfolding start_machines
    start_machines-Keeps [] ready h = Keeps-pure _
    start_machines-Keeps (machine ∷ rest) ready (first, others) =
        elim (Bool-cases (machine.name == init_name)) [
          | inl is ↦ rw (start_machine_init machine is) (
              Keeps-bind _ _ (Keeps-pure _)
                (λ applied. start_machines-Keeps rest (ready && applied) others))
          | inr isnt ↦ rw (start_machine_other machine isnt) (
              Keeps-bind _ _ (first isnt)
                (λ applied. start_machines-Keeps rest (ready && applied) others))
        ]

    -- The machine is the init machine, or reports the plan by which it joins.
    abbrev pub Joined : c.State → Machine → Type 0
    Joined s machine =
        ((machine.name == init_name) ≡ true) ⊎ Reports c k.sha256 L machine (join_plan ip) s

    All-keep :
        (key : Key) (machines : List Machine)
        → All
            (λ machine.
              (machine.name == init_name) ≡ false
              → Keeps
                  (Reported c k.sha256 L key (join_plan ip))
                  (apply_plan c k machine (join_plan ip)))
            machines
    All-keep key [] = tt
    All-keep key (machine ∷ rest) =
        (λ _. apply_plan-Reported c k L key (join_plan ip) machine, All-keep key rest)

    start_machine-Joined :
        {P : c.State → Type 0} (machine : Machine)
        → Ensures P
            (start_machine c k init_name ip machine)
            (λ applied s. applied ≡ true → Joined s machine)
    start_machine-Joined machine = elim (Bool-cases (machine.name == init_name)) [
      | inl is ↦ rw (start_machine_init machine is) (Ensures-pure _ (λ s _ _. inl is))
      | inr isnt ↦ rw (start_machine_other machine isnt) (
          Ensures-of (λ applied s reports now. inr (reports now))
            (apply_plan-Reports c k L machine (join_plan ip)))
    ]

    Joined-rest :
        (machine : Machine) (rest : List Machine) (ready : Bool) (s : c.State)
        → Joined s machine
        → Joined (start_machines c k init_name ip rest ready s).1 machine
    Joined-rest machine rest ready s (inl is) = inl is
    Joined-rest machine rest ready s (inr (config, has, reported)) = inr (
      config,
      has,
      (start_machines-Keeps rest ready (All-keep (plan_key machine config) rest)).at s reported,
    )

    pub start_machines-All :
        {P : c.State → Type 0} (machines : List Machine) (ready : Bool)
        → Ensures P
            (start_machines c k init_name ip machines ready)
            (λ all s. all ≡ true → (ready ≡ true) × All (Joined s) machines)
    unfolding start_machines
    start_machines-All [] ready = Ensures-pure _ (λ s _ e. (e, tt))
    start_machines-All (machine ∷ rest) ready =
        Ensures-bind {R = λ applied s. applied ≡ true → Joined s machine} _ _
          (start_machine-Joined machine)
          (λ applied. record {
            at = λ s here all e is.
                let (both, others) =
                  (start_machines-All {P = λ _. Unit {0}} rest (ready && applied)).at s tt all e
                    is in
                let (was, now) = both_true ready applied both in
                (was, (Joined-rest machine rest (ready && applied) s (here now), others));
          })
