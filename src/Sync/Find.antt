-- ===== src/Sync/Find.antt =====
-- What `findMachineForBackup` finds among the machines.
use turtles_etcd_restore.Base.{
  ap, sym, ◌∙◌, none, ◌≢◌, All, eq_refl, Option, String, ◌≡◌, refl, Bool, true, false, some, none,
  List, [], ◌∷◌, In, ◌⊎◌, inl, inr, ◌==◌, eq_iff, if◌then◌else◌,
}
use turtles_etcd_restore.Objects.{Machine}
use turtles_etcd_restore.Go.Outcome.{Outcome, ok}
use turtles_etcd_restore.Sync.Extract.{find_machine, node_matches}

-- A machine of the list, of that cluster and on that node, has the name.
abbrev pub RunsOn : String → String → List Machine → String → Type 0
RunsOn cluster_name node_name machines name =
    (machine : Machine) × In machine machines
    × (machine.cluster_name ≡ cluster_name)
    × (machine.node_ref ≡ some node_name)
    × (machine.name ≡ name)

-- What is found is found later, or the node of this machine is the one that is looked for.
node_matches_cases :
    (r : Option String) (node_name name found : String) (later : Outcome String)
    → node_matches r node_name name later ≡ ok found
    → (later ≡ ok found) ⊎ ((r ≡ some node_name) × (name ≡ found))
node_matches_cases none node_name name found later h = cc
node_matches_cases (some node) node_name name found later h = go (node == node_name) refl h
  where
    go :
        (b : Bool)
        → (node == node_name) ≡ b
        → (if b then ok name else later) ≡ ok found
        → (later ≡ ok found) ⊎ ((some node ≡ some node_name) × (name ≡ found))
    go true e h' = let same = (eq_iff node node_name).0 e in inr (cc, cc)
    go false e h' = inl h'

module _ (cluster_name node_name : String) where
  RunsOn-later :
      (m : Machine) (ms : List Machine) (name : String)
      → (name ≡ "") ⊎ RunsOn cluster_name node_name ms name
      → (name ≡ "") ⊎ RunsOn cluster_name node_name (m ∷ ms) name
  RunsOn-later m ms name (inl e) = inl e
  RunsOn-later m ms name (inr (x, i, c, n, e)) = inr (x, inr i, c, n, e)

  -- The name that is found is empty, or it is the name of a machine of the list that belongs to
  -- the cluster and runs on the node.
  pub find_machine_found :
      (machines : List Machine) (name : String)
      → find_machine cluster_name node_name machines ≡ ok name
      → (name ≡ "") ⊎ RunsOn cluster_name node_name machines name
  unfolding find_machine
  find_machine_found [] name h = inl (cc)
  find_machine_found (m ∷ ms) name h =
      go (m.cluster_name == cluster_name) refl h (find_machine_found ms name)
    where
      later : Outcome String
      later = find_machine cluster_name node_name ms

      go :
          (b : Bool)
          → (m.cluster_name == cluster_name) ≡ b
          → (if b then node_matches m.node_ref node_name m.name later else later) ≡ ok name
          → (later ≡ ok name → (name ≡ "") ⊎ RunsOn cluster_name node_name ms name)
          → (name ≡ "") ⊎ RunsOn cluster_name node_name (m ∷ ms) name
      go true e h' k = elim (node_matches_cases m.node_ref node_name m.name name later h') [
        | inl l ↦ RunsOn-later m ms name (k l)
        | inr (node, same) ↦ inr (m, inl refl, (eq_iff m.cluster_name cluster_name).0 e, node, same)
      ]
      go false e h' k = RunsOn-later m ms name (k h')

  find_here :
      (m : Machine) (ms : List Machine)
      → m.cluster_name ≡ cluster_name
      → m.node_ref ≡ some node_name
      → find_machine cluster_name node_name (m ∷ ms) ≡ ok m.name
  unfolding find_machine
  find_here m ms here on =
      rw ((eq_iff m.cluster_name cluster_name).1 here, on, eq_refl node_name) refl

  -- What the loop makes of a machine with a node, given what it finds later.
  step_found :
      (G : String → Type 0) (m : Machine) (later : Outcome String)
      → m.node_ref ≢ none
      → (m.cluster_name ≡ cluster_name → m.node_ref ≡ some node_name → G m.name)
      → ((name : String) × (later ≡ ok name) × G name)
      → (name : String) × ((if m.cluster_name == cluster_name
            then node_matches m.node_ref node_name m.name later
            else later)
          ≡ ok name)
        × G name
  step_found G m later has here (name, e, g) = go (m.cluster_name == cluster_name) refl
    where
      matched :
          (r : Option String)
          → r ≢ none
          → (r ≡ some node_name → G m.name)
          → (n : String) × (node_matches r node_name m.name later ≡ ok n) × G n
      matched none h k = absurd (h refl)
      matched (some node) h k = pick (node == node_name) refl
        where
          pick :
              (b : Bool)
              → (node == node_name) ≡ b
              → (n : String) × ((if b then ok m.name else later) ≡ ok n) × G n
          pick true is = (m.name, refl, k (ap (λ x. some x) ((eq_iff node node_name).0 is)))
          pick false is = (name, e, g)

      go :
          (b : Bool)
          → (m.cluster_name == cluster_name) ≡ b
          → (n : String) × ((if b then node_matches m.node_ref node_name m.name later else later)
              ≡ ok n)
            × G n
      go true is =
          matched m.node_ref has (λ on. here ((eq_iff m.cluster_name cluster_name).0 is) on)
      go false is = (name, e, g)

  RunsOn-grows :
      (m : Machine) (ms : List Machine) (name : String)
      → RunsOn cluster_name node_name ms name
      → RunsOn cluster_name node_name (m ∷ ms) name
  RunsOn-grows m ms name (x, i, c, n, e) = (x, inr i, c, n, e)

  -- If all the machines have a node, and one of them belongs to the cluster and runs on the node
  -- that is looked for, then the search answers the name of such a machine.
  pub find_machine_complete :
      (machines : List Machine) (x : Machine)
      → All (λ m. m.node_ref ≢ none) machines
      → In x machines
      → x.cluster_name ≡ cluster_name
      → x.node_ref ≡ some node_name
      → (name : String) × (find_machine cluster_name node_name machines ≡ ok name)
        × RunsOn cluster_name node_name machines name
  unfolding find_machine
  find_machine_complete [] x h i c n = elim i [ ]
  find_machine_complete (m ∷ ms) x (h, hs) (inl is) c n = (
    m.name,
    find_here m ms (ap (λ y. y.cluster_name) (sym is) ∙ c) (ap (λ y. y.node_ref) (sym is) ∙ n),
    (m, inl refl, ap (λ y. y.cluster_name) (sym is) ∙ c, ap (λ y. y.node_ref) (sym is) ∙ n, refl),
  )
  find_machine_complete (m ∷ ms) x (h, hs) (inr i) c n =
      let (name, e, runs) = find_machine_complete ms x hs i c n in
      step_found (λ y. RunsOn cluster_name node_name (m ∷ ms) y) m _ h
        (λ here on. (m, inl refl, here, on, refl)) (name, e, RunsOn-grows m ms name runs)
