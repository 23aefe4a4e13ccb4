-- ===== src/Restore/Loops.antt =====
-- The loops over the machines: an answer `true` says that every machine reports the plan.
use turtles_etcd_restore.Base.{
  String, ◌≡◌, refl, sym, ◌∙◌, Bool, true, ◌&&◌, some, List, [], ◌∷◌, arith, All,
}
use mathlib.Core.Option.{some-injective}
use turtles_etcd_restore.Objects.{Key, Machine, Secret, key_of}
use turtles_etcd_restore.Go.Outcome.{◌>>=◌}
use turtles_etcd_restore.Go.Rules.{
  Keeps, Keeps-pure, Keeps-lift, Keeps-on_err, Keeps-bind, Keeps-if, Leaves-bind, Leaves-of,
  Ensures, Ensures-pure, Ensures-lift, Ensures-on_err, Ensures-bind, Ensures-if, Ensures-of,
}
use turtles_etcd_restore.Go.Bytes.{Bytes, entry}
use turtles_etcd_restore.Instructions.{is_plan_applied}
use turtles_etcd_restore.Instructions.Distinct.{kill_plan}
use turtles_etcd_restore.Client.{Client, Codec}
use turtles_etcd_restore.Client.Laws.{Rely}
use turtles_etcd_restore.Restore.PlanSecret.{with_content}
use turtles_etcd_restore.Restore.Machines.{finish_machine, apply_plan, stop_machine, stop_machines}
use turtles_etcd_restore.Restore.Applied.{
  plan_key, Planned, Reported, Reports, Read, get_plan-Planned, get_plan-Reported, get_plan-Read,
  update-Reported, update-Filled, Holds-of_Read, Planned-of_Filled, plan_of,
}

pub both_true : (a b : Bool) → (a && b) ≡ true → (a ≡ true) × (b ≡ true)
both_true a b h = ground arith

module _ (c : Client) (k : Codec) (L : Rely c k.sha256) where
  pub finish-Keeps :
      {P : c.State → Type 0} (plan : Bytes) (secret : Secret)
      → Keeps P (finish_machine c k plan secret)
  unfolding finish_machine
  finish-Keeps plan secret =
      Keeps-if _ _ _ (Keeps-bind _ _ (Keeps-lift _) (λ _. Keeps-pure _)) (Keeps-pure _)

  pub finish-applied :
      {P : c.State → Type 0} (plan : Bytes) (secret : Secret)
      → Ensures P (finish_machine c k plan secret) (λ ready s.
        P s
        × (ready ≡ true
            → is_plan_applied k.sha256 plan (entry secret.content "applied-checksum") ≡ true))
  unfolding finish_machine
  finish-applied {P} plan secret =
      Ensures-if _ _ _
        (λ applied.
          Ensures-bind {R = λ _. P} _ _ (Ensures-lift _ (λ _ _ s h. h))
            (λ _. Ensures-pure _ (λ s h. (h, λ _. applied))))
        (λ _. Ensures-pure _ (λ s h. (h, λ e. cc)))

  -- A loop body leaves what any secret reports of the plan that it applies.
  pub apply_plan-Reported :
      (key : Key) (plan : Bytes) (machine : Machine)
      → Keeps (Reported c k.sha256 L key plan) (apply_plan c k machine plan)
  unfolding apply_plan
  apply_plan-Reported key plan machine =
      Leaves-bind {R = Read c k.sha256 L machine} _ _
        (Keeps-on_err _ _ (get_plan-Reported c k.sha256 L key plan machine))
        (Ensures-on_err _ _ (get_plan-Read c k.sha256 L machine))
        (λ x.
          Leaves-bind {R = λ _ _. Unit} _ _
            (Keeps-on_err _ _ (
              Leaves-of
                (λ s (read, reported). (Holds-of_Read c k.sha256 L machine x s read, reported))
                (update-Reported c k.sha256 L key plan (with_content x))))
            (record { at = λ _ _ _ _. tt })
            (λ _.
              Leaves-of (λ s h. h.1)
                (Keeps-bind _ _ (Keeps-on_err _ _ (get_plan-Reported c k.sha256 L key plan machine))
                  (finish-Keeps plan))))

  -- `true` from a loop body says that the machine's plan secret holds the plan and reports it.
  pub apply_plan-Reports :
      {P : c.State → Type 0} (machine : Machine) (plan : Bytes)
      → Ensures P
          (apply_plan c k machine plan)
          (λ ready s. ready ≡ true → Reports c k.sha256 L machine plan s)
  unfolding apply_plan
  apply_plan-Reports machine plan =
      Ensures-bind _ _ (Ensures-on_err _ _ (get_plan-Read c k.sha256 L machine)) (λ x.
        Ensures-bind
          {R = λ y s.
            (config : String) × (machine.config_ref ≡ some config)
            × Planned c k.sha256 L (plan_key machine config) plan s}
          _ _
          (Ensures-on_err _ _ (record {
            at = λ s read y e. (
              read.0,
              read.1,
              rw (← read.3) (
                  Planned-of_Filled c k.sha256 L (key_of x) plan y _ (
                    (update-Filled c k.sha256 L (with_content x) plan).at s
                      (Holds-of_Read c k.sha256 L machine x s read) y e)),
            );
          }))
          (λ y.
            Ensures-bind
              {R = λ z s. Read c k.sha256 L machine z s × (entry z.content "plan" ≡ plan)} _ _
              (Ensures-on_err _ _ (record {
                at = λ s (config, has, planned) z e.
                    let read =
                      (get_plan-Read c k.sha256 L {P = λ _. Unit {0}} machine).at s tt z e in
                    (
                      read,
                      plan_of z
                          ((get_plan-Planned c k.sha256 L (plan_key machine config) plan machine).at
                            s planned)
                          (rw (some-injective config read.0 (sym has ∙ read.1)) read.2),
                    );
              }))
              (λ z.
                Ensures-of
                  (λ ready s ((read, planned), applied) is.
                    (read.0, read.1, (z, read.2, planned, applied is)))
                  (finish-applied plan z))))

  stop_machine-eq-apply_plan :
      (machine : Machine) → stop_machine c k machine ≡ apply_plan c k machine kill_plan
  unfolding stop_machine ◌>>=◌
  stop_machine-eq-apply_plan machine = refl

  -- Once a secret reports the plan that stops RKE2, the rest of the loop keeps it.
  pub stop_machines-Reported :
      (key : Key) (machines : List Machine) (ready : Bool)
      → Keeps (Reported c k.sha256 L key kill_plan) (stop_machines c k machines ready)
  unfolding stop_machines
  stop_machines-Reported key [] ready = Keeps-pure _
  stop_machines-Reported key (machine ∷ rest) ready =
      Keeps-bind _ _ (rw stop_machine-eq-apply_plan (apply_plan-Reported key kill_plan machine))
        (λ applied. stop_machines-Reported key rest (ready && applied))

  pub stop_machines-All :
      {P : c.State → Type 0} (machines : List Machine) (ready : Bool)
      → Ensures P (stop_machines c k machines ready) (λ all s.
        all ≡ true
        → (ready ≡ true) × All (λ machine. Reports c k.sha256 L machine kill_plan s) machines)
  unfolding stop_machines
  stop_machines-All [] ready = Ensures-pure _ (λ s _ e. (e, tt))
  stop_machines-All (machine ∷ rest) ready =
      Ensures-bind {R = λ applied s. applied ≡ true → Reports c k.sha256 L machine kill_plan s} _ _
        (rw stop_machine-eq-apply_plan (apply_plan-Reports machine kill_plan))
        (λ applied. record {
          at = λ s here all e is.
              let (both, others) =
                (stop_machines-All {P = λ _. Unit {0}} rest (ready && applied)).at s tt all e is in
              let (was, now) = both_true ready applied both in
              let (config, has, reported) = here now in
              let kept =
                (stop_machines-Reported (plan_key machine config) rest (ready && applied)).at s
                  reported in
              (was, ((config, has, kept), others));
        })
