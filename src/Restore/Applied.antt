-- ===== src/Restore/Applied.antt =====
-- What the calls for one machine do to plan secrets: they keep what a secret holds and reports, and
-- a loop body answers `true` for a secret that reports the checksum.
use turtles_etcd_restore.Base.{String, ◌≡◌, refl, sym, ◌∙◌, ap, inl, inr, true, Option, none, some}
use turtles_etcd_restore.Objects.{Key, Machine, Secret, key_of, Key-cases}
use turtles_etcd_restore.Go.Outcome.{ok, deref, ◌>>=◌}
use turtles_etcd_restore.Go.Rules.{
  Leaves, Keeps, Keeps-pure, Keeps-lift, Keeps-call, Keeps-on_err, Keeps-bind, Keeps-if, Ensures,
  Ensures-if, Ensures-pure, Ensures-lift, Ensures-call, Ensures-on_err, Ensures-bind,
}
use turtles_etcd_restore.Go.Bytes.{
  Bytes, ByteMap, hex, entry, or_empty, index, entry-set_entry, bytes_equal_iff,
}
use turtles_etcd_restore.Instructions.{is_plan_applied}
use turtles_etcd_restore.Instructions.Checksum.{is_plan_applied_iff}
use turtles_etcd_restore.Client.{Client}
use turtles_etcd_restore.Client.Laws.{Rely, AgentStep}
use turtles_etcd_restore.Restore.PlanSecret.{
  plan_secret_name, with_content, get_plan_secret_for_machine, update_plan_secret_with_plan,
}

-- The secret is there and holds the plan.
abbrev pub PlannedIn : Option Secret → Bytes → Type 0
PlannedIn o plan = (x : Secret) × (o ≡ some x) × (entry x.content "plan" ≡ plan)

-- The secret is there, holds the plan and reports it applied.
abbrev pub ReportedIn : (Bytes → Bytes) → Option Secret → Bytes → Type 0
ReportedIn sha256 o plan =
    (x : Secret) × (o ≡ some x)
    × (entry x.content "plan" ≡ plan)
    × (is_plan_applied sha256 plan (entry x.content "applied-checksum") ≡ true)

AgentStep-PlannedIn :
    (sha256 : Bytes → Bytes) {o o' : Option Secret} {plan : Bytes}
    → AgentStep sha256 o o'
    → PlannedIn o plan
    → PlannedIn o' plan
AgentStep-PlannedIn sha256 step (x, here, holds) =
    let (y, there, same, _) = step x here in (y, there, same ∙ holds)

pub AgentStep-ReportedIn :
    (sha256 : Bytes → Bytes) {o o' : Option Secret} {plan : Bytes}
    → AgentStep sha256 o o'
    → ReportedIn sha256 o plan
    → ReportedIn sha256 o' plan
AgentStep-ReportedIn sha256 {plan} step (x, here, holds, applied) =
    let (y, there, same, checksum) = step x here in
    (
      y,
      there,
      same ∙ holds,
      (is_plan_applied_iff sha256 plan _).1 (elim checksum [
        | inl kept ↦ (is_plan_applied_iff sha256 plan _).0 applied ∙ sym kept
        | inr reported ↦ ap (λ (p : Bytes). hex (sha256 p)) (sym holds) ∙ sym reported
      ]),
    )

-- The key of the plan secret that belongs to a bootstrap configuration.
abbrev pub plan_key : Machine → String → Key
plan_key machine config = record { namespace = machine.namespace; name = plan_secret_name config }

same_secret : {o : Option Secret} {x y : Secret} → o ≡ some x → o ≡ some y → x ≡ y
same_secret p q = cc

pub plan_of :
    {o : Option Secret} {plan : Bytes} (z : Secret)
    → PlannedIn o plan
    → o ≡ some z
    → entry z.content "plan" ≡ plan
plan_of z (y, there, planned) here =
    ap (λ (x : Secret). entry x.content "plan") (same_secret here there) ∙ planned

pub entry-or_empty : (m : Option ByteMap) (e : String) → entry m e ≡ entry (or_empty m) e
unfolding index
entry-or_empty none e = refl
entry-or_empty (some m) e = refl

pub deref-eq_ok : {A : Type 0} (o : Option A) {a : A} → deref o ≡ ok a → o ≡ some a
deref-eq_ok none h = cc
deref-eq_ok (some x) h = cc

module _ (c : Client) (sha256 : Bytes → Bytes) (L : Rely c sha256) where
  abbrev pub Planned : Key → Bytes → c.State → Type 0
  Planned key plan s = PlannedIn (L.secret_at s key) plan

  abbrev pub Reported : Key → Bytes → c.State → Type 0
  Reported key plan s = ReportedIn sha256 (L.secret_at s key) plan

  -- The plan secret of the machine holds the plan and reports it applied.
  abbrev pub Reports : Machine → Bytes → c.State → Type 0
  Reports machine plan s =
      (config : String) × (machine.config_ref ≡ some config)
      × Reported (plan_key machine config) plan s

  pub get_plan-Keeps :
      {P : c.State → Type 0}
      → ((key : Key) (s : c.State) → P s → P (c.get_config key s).1)
      → ((key : Key) (s : c.State) → P s → P (c.get_secret key s).1)
      → (machine : Machine) → Keeps P (get_plan_secret_for_machine c machine)
  unfolding get_plan_secret_for_machine
  get_plan-Keeps config secret machine = Keeps-bind _ _ (Keeps-lift _) (λ name.
      Keeps-bind _ _ (Keeps-on_err _ _ (Keeps-call _ (config _)))
        (λ x. Keeps-on_err _ _ (Keeps-call _ (secret _))))

  -- Reading a plan secret keeps what is planned and what is reported.
  pub get_plan-Planned :
      (key : Key) (plan : Bytes) (machine : Machine)
      → Keeps (Planned key plan) (get_plan_secret_for_machine c machine)
  get_plan-Planned key plan =
      get_plan-Keeps (λ j t. AgentStep-PlannedIn sha256 (L.get_config_agents j key t))
        (λ j t. AgentStep-PlannedIn sha256 (L.get_secret_agents j key t))

  pub get_plan-Reported :
      (key : Key) (plan : Bytes) (machine : Machine)
      → Keeps (Reported key plan) (get_plan_secret_for_machine c machine)
  get_plan-Reported key plan =
      get_plan-Keeps (λ j t. AgentStep-ReportedIn sha256 (L.get_config_agents j key t))
        (λ j t. AgentStep-ReportedIn sha256 (L.get_secret_agents j key t))

  -- The secret that a successful reading answers is the one of the machine's configuration.
  abbrev pub Read : Machine → Secret → c.State → Type 0
  Read machine x s =
      (config : String) × (machine.config_ref ≡ some config)
      × (L.secret_at s (plan_key machine config) ≡ some x)
      × (key_of x ≡ plan_key machine config)

  pub get_plan-Read :
      {P : c.State → Type 0} (machine : Machine)
      → Ensures P (get_plan_secret_for_machine c machine) (Read machine)
  unfolding get_plan_secret_for_machine
  get_plan-Read machine =
      Ensures-bind {R = λ config s. machine.config_ref ≡ some config} _ _
        (Ensures-lift _ (λ config has _ _. deref-eq_ok _ has))
        (λ config.
          Ensures-bind {R = λ x s. (machine.config_ref ≡ some config) × (x.name ≡ config)} _ _
            (Ensures-on_err _ _
              (Ensures-call _ (λ s has x found. (has, L.config_name _ s x found))))
            (λ x. Ensures-on_err _ _ (
              Ensures-call _ (λ s (has, named) y found.
                let held = L.get_secret_done _ s y found in
                (config, has, rw (← named) held.0, rw (← named) held.1)))))

  -- A secret in memory with the data that the server holds under its key.
  abbrev pub Holds : Secret → c.State → Type 0
  Holds x s =
      (z : Secret) × (L.secret_at s (key_of x) ≡ some z)
      × ((e : String) → entry z.content e ≡ entry x.content e)

  pub update-Keeps :
      {P : c.State → Type 0} (x : Secret) (plan : Bytes)
      → ((base obj : Secret) (s : c.State)
          → key_of obj ≡ key_of x
          → P s
          → P (c.patch_secret base obj s).1)
      → Keeps P (update_plan_secret_with_plan c x plan)
  unfolding update_plan_secret_with_plan
  update-Keeps x plan patch = Keeps-if _ _ _ (Keeps-pure _) (
      Keeps-bind _ _ (Keeps-lift _)
        (λ content. Keeps-on_err _ _ (Keeps-call _ (λ s. patch _ _ s refl))))

  update_done :
      (x : Secret) (plan : Bytes) (s : c.State)
      → entry x.content "plan" ≡ plan
      → update_plan_secret_with_plan c x plan s ≡ (ok x, s)
  unfolding update_plan_secret_with_plan ◌>>=◌
  update_done x plan s e = rw ((bytes_equal_iff (entry x.content "plan") plan).1 e)

  -- Filling a secret leaves what any secret reports of the same plan: under another key only the
  -- agents act, and a secret that already holds the plan is not written.
  pub update-Reported :
      (key : Key) (plan : Bytes) (x : Secret)
      → Leaves
          (λ s. Holds x s × Reported key plan s)
          (update_plan_secret_with_plan c x plan)
          (Reported key plan)
  update-Reported key plan x = record {
    at = λ s ((z, held, same), reported). elim (Key-cases (key_of x) key) [
      | inl e ↦
          rw
            (update_done x plan s
              (sym (same "plan") ∙ plan_of z (reported.0, reported.1, reported.2) (rw (← e) held)))
            reported
      | inr ne ↦
          (update-Keeps {P = Reported key plan} x plan (λ base obj t e.
              AgentStep-ReportedIn sha256
                (L.patch_secret_agents base obj key t (λ p. ne (sym e ∙ p))))).at
            s reported
    ];
  }

  -- What a filled secret is: the one that the server holds, with the plan in it.
  abbrev pub Filled : Key → Bytes → Secret → c.State → Type 0
  Filled key plan y s = Holds y s × (key_of y ≡ key) × (entry y.content "plan" ≡ plan)

  pub update-Filled :
      (x : Secret) (plan : Bytes)
      → Ensures (Holds x) (update_plan_secret_with_plan c x plan) (Filled (key_of x) plan)
  unfolding update_plan_secret_with_plan
  update-Filled x plan =
      Ensures-if _ _ _
        (λ equal. Ensures-pure _ (λ s held. (held, refl, (bytes_equal_iff _ plan).0 equal)))
        (λ _.
          Ensures-bind {R = λ content s. entry content "plan" ≡ plan} _ _
            (Ensures-lift _ (λ content set _ _. entry-set_entry x.content "plan" "plan" plan set))
            (λ content. Ensures-on_err _ _ (
              Ensures-call _ (λ s planned y found.
                let (there, name, same) = L.patch_secret_done _ _ s y found in
                (
                  (y, rw name there, λ e. refl),
                  name,
                  ap (λ (m : Option ByteMap). entry m "plan") same ∙ planned,
                )))))

  -- The data of a secret that was read, made a map, is still what the server holds.
  pub Holds-with_content :
      (x : Secret) (s : c.State) → L.secret_at s (key_of x) ≡ some x → Holds (with_content x) s
  Holds-with_content x s here = (x, here, λ e. entry-or_empty x.content e)

  pub Holds-of_Read :
      (machine : Machine) (x : Secret) (s : c.State) → Read machine x s → Holds (with_content x) s
  Holds-of_Read machine x s (config, has, here, name) = Holds-with_content x s (rw name here)

  pub Planned-of_Filled :
      (key : Key) (plan : Bytes) (y : Secret) (s : c.State)
      → Filled key plan y s
      → Planned key plan s
  Planned-of_Filled key plan y s ((z, held, same), name, planned) =
      (z, rw (← name) held, same "plan" ∙ planned)
