-- ===== src/Manager/Facts.antt =====
-- What a call does to the facts that have been established so far.
use turtles_etcd_restore.Base.{List, ◌∷◌, All, All-map}
use turtles_etcd_restore.Go.Outcome.{M}
use turtles_etcd_restore.Go.Rules.{Leaves, Ensures}
use turtles_etcd_restore.Manager.Framework.{Framework, Process, exit_on_err, must}
use turtles_etcd_restore.Manager.Rules.{Runs, Runs-exit_on_err, Runs-must}
use turtles_etcd_restore.Manager.Registry.{Fact, Inert, Calm, Establishes}

module _ (f : Framework) (Q : f.State → Type 0) (R : Fact f.Manager → f.State → Type 0) where
  -- `Q`, with the facts so far.
  pub record Have (facts : List (Fact f.Manager)) (s : f.State) : Type 0 where
    pub holds : Q s
    pub established : All (λ fact. R fact s) facts

  stays-All :
      {A : Type 0} (facts : List (Fact f.Manager)) (m : M f.State A) (s : f.State)
      → Inert f Q R m
      → All (λ fact. R fact s) facts
      → All (λ fact. R fact (m s).1) facts
  stays-All facts m s k = All-map (λ fact. (k.stays fact).at s) facts

  pub Inert-Leaves :
      {A : Type 0} (facts : List (Fact f.Manager)) (m : M f.State A)
      → Inert f Q R m
      → Leaves (Have facts) m Q
  Inert-Leaves facts m k = record { at = λ s h. k.keeps.at s h.holds }

  pub Inert-Ensures :
      {A : Type 0} (facts : List (Fact f.Manager)) (m : M f.State A)
      → Inert f Q R m
      → Ensures (Have facts) m (λ a. Have facts)
  Inert-Ensures facts m k = record {
    at = λ s h a e. record {
      holds = k.keeps.at s h.holds;
      established = stays-All facts m s k h.established;
    };
  }

  pub Runs-Inert :
      {A : Type 0} (facts : List (Fact f.Manager)) (m : M f.State A)
      → Inert f Q R m
      → Runs (Have facts) (exit_on_err m) Q (λ a. Have facts)
  Runs-Inert facts m k = Runs-exit_on_err m (Inert-Leaves facts m k) (Inert-Ensures facts m k)

  pub must-Inert :
      {A : Type 0} (facts : List (Fact f.Manager)) (m : M f.State A)
      → Inert f Q R m
      → Runs (Have facts) (must m) Q (λ a. Have facts)
  must-Inert facts m k = Runs-must m (Inert-Leaves facts m k) (Inert-Ensures facts m k)

  pub Runs-Calm :
      {A : Type 0} (facts : List (Fact f.Manager)) (m : Process f.State A)
      → Calm f Q R m
      → Runs (Have facts) m Q (λ a. Have facts)
  Runs-Calm facts m k = record {
    leaves = λ s h. k.keeps s h.holds;
    ensures = λ s h a e. record {
      holds = k.keeps s h.holds;
      established = All-map (λ fact. k.stays fact s) facts h.established;
    };
  }

  pub Runs-Establishes :
      {A : Type 0} (facts : List (Fact f.Manager)) (fact : Fact f.Manager) (m : M f.State A)
      → Establishes f Q R fact m
      → Runs (Have facts) (exit_on_err m) Q (λ a. Have (fact ∷ facts))
  Runs-Establishes facts fact m (k, l) = Runs-exit_on_err m (Inert-Leaves facts m k) (record {
    at = λ s h a e. record {
      holds = k.keeps.at s h.holds;
      established = (l.at s tt a e, stays-All facts m s k h.established);
    };
  })
