-- ===== src/Tests/ManagerRuns.antt =====
-- The process over a framework that writes down what is registered and started.
use turtles_etcd_restore.Base.{
  ◌≡◌, refl, List, [], ◌∷◌, ◌++◌, ap, In, In-append_left, In-append_right, inl, inr,
}
use turtles_etcd_restore.Go.Outcome.{M, ok}
use turtles_etcd_restore.Manager.Flags.{with_defaults, zero_settings}
use turtles_etcd_restore.Manager.Framework.{Framework, goes_on}
use turtles_etcd_restore.Manager.Registry.{
  Part, readyz, healthz, handler, Fact, known, registered, Registry, Inert, Establishes,
}
use turtles_etcd_restore.Manager.Starts.{process-Keeps}
use turtles_etcd_restore.Api.Register.{ObjectType, SchemeBuilders, Registers}
use turtles_etcd_restore.Manager.Serves.{process_ends, EndsWith, SetupSucceeds}
use turtles_etcd_restore.Manager.Main.{process}

pub data Event : Type 0 where
  notes : Fact Unit → Event
  starts : Event

abbrev Journal : Type 0
Journal = List Event

abbrev writes : Event → M Journal (Unit {0})
writes event journal = (ok tt, event ∷ journal)

abbrev learns : List ObjectType → M Journal (Unit {0})
learns [] journal = (ok tt, journal)
learns (t ∷ ts) journal = (ok tt, notes (known t) ∷ (learns ts journal).1)

-- Scheme builders that are the lists of their types.
abbrev lists : SchemeBuilders
lists = record { Builder = List ObjectType; new_builder = λ group. []; register = λ ts x. ts ++ x }

-- The newest event is the first.
abbrev pub recorder : Framework
recorder = record {
  State = Journal;
  Config = Unit;
  Manager = Unit;
  HttpClient = Unit;
  Cache = Unit;
  ApiClient = Unit;
  Tracker = Unit;
  Checker = Unit;
  Controller = Unit;
  leases_resource_lock = "leases";
  builders = lists;
  add_to_scheme = λ group s. (ok tt, s);
  add_built_to_scheme = learns;
  parse = λ flags s. (goes_on (with_defaults flags zero_settings), s);
  get_config = λ s. (goes_on tt, s);
  new_manager = λ config options s. (ok tt, s);
  started_checker = λ mgr. tt;
  manager_config = λ mgr. tt;
  http_client = λ mgr. tt;
  cache = λ mgr. tt;
  client = λ mgr. tt;
  add_readyz_check = λ mgr name check. writes (notes (registered mgr readyz));
  add_healthz_check = λ mgr name check. writes (notes (registered mgr healthz));
  new_client = λ config http cache s. (ok tt, s);
  new_cluster_cache_tracker = λ mgr client name s. (ok tt, s);
  build = λ mgr kind r. writes (notes (registered mgr (handler kind)));
  complete = λ mgr kind r. writes (notes (registered mgr (handler kind)));
  complete_webhook = λ mgr kind r. writes (notes (registered mgr (handler kind)));
  start = λ mgr. writes starts;
}

-- Before each start every type was known and everything registered.
abbrev InOrder : Journal → Type 0
InOrder [] = Unit
InOrder (notes fact ∷ rest) = InOrder rest
InOrder (starts ∷ rest) =
    ((t : ObjectType) → In (notes (known t)) rest)
    × ((part : Part) → In (notes (registered tt part)) rest)
    × InOrder rest

abbrev Recorded : Fact Unit → Journal → Type 0
Recorded fact journal = In (notes fact) journal

abbrev HasType : List ObjectType → ObjectType → Type 0
HasType ts t = In t ts

quiet : {A : Type 0} (a : A) → Inert recorder InOrder Recorded (λ s. (ok a, s))
quiet a = record { keeps = record { at = λ s h. h }; stays = λ fact. record { at = λ s h. h } }

noted : (fact : Fact Unit) → Establishes recorder InOrder Recorded fact (writes (notes fact))
noted fact = (
  record { keeps = record { at = λ s h. h }; stays = λ other. record { at = λ s h. inr h } },
  record { at = λ s h a e. inl refl },
)

learns-InOrder : (ts : List ObjectType) (s : Journal) → InOrder s → InOrder (learns ts s).1
learns-InOrder [] s h = h
learns-InOrder (t ∷ ts) s h = learns-InOrder ts s h

learns-Recorded :
    (ts : List ObjectType) (fact : Fact Unit) (s : Journal)
    → Recorded fact s
    → Recorded fact (learns ts s).1
learns-Recorded [] fact s h = h
learns-Recorded (t ∷ ts) fact s h = inr (learns-Recorded ts fact s h)

learned :
    (ts : List ObjectType) (t : ObjectType) (s : Journal)
    → In t ts
    → Recorded (known t) (learns ts s).1
learned [] t s h = absurd h
learned (u ∷ ts) t s (inl e) = inl (ap (λ x. notes (known x)) e)
learned (u ∷ ts) t s (inr h) = inr (learned ts t s h)

lists-Registers : Registers lists HasType
lists-Registers = record {
  adds = λ ts x t h. In-append_left t ts x h;
  keeps = λ ts x t h. In-append_right t ts x h;
}

recorder-Registry : Registry recorder InOrder Recorded HasType
recorder-Registry = record {
  registers = lists-Registers;
  add_to_scheme = λ group. quiet tt;
  add_built_to_scheme = λ ts. (
    record {
      keeps = record { at = learns-InOrder ts };
      stays = λ fact. record { at = learns-Recorded ts fact };
    },
    λ t h. record { at = λ s u a e. learned ts t s h },
  );
  parse = λ flags. record { keeps = λ s h. h; stays = λ fact s h. h };
  get_config = record { keeps = λ s h. h; stays = λ fact s h. h };
  new_manager = λ config options. quiet tt;
  add_readyz_check = λ mgr name check. noted (registered mgr readyz);
  add_healthz_check = λ mgr name check. noted (registered mgr healthz);
  new_client = λ config http cache. quiet tt;
  new_cluster_cache_tracker = λ mgr client name. quiet tt;
  build = λ mgr kind r. noted (registered mgr (handler kind));
  complete = λ mgr kind r. noted (registered mgr (handler kind));
  complete_webhook = λ mgr kind r. noted (registered mgr (handler kind));
  start = λ mgr. record { at = λ s h. (h.1, h.2, h.0) };
}

process-Keeps_example : InOrder (process recorder []).1
process-Keeps_example = process-Keeps recorder InOrder Recorded recorder-Registry [] tt

learns_ok : (ts : List ObjectType) (s : Journal) → (learns ts s).0 ≡ ok tt
learns_ok [] s = refl
learns_ok (t ∷ ts) s = refl

recorder-SetupSucceeds : SetupSucceeds recorder
recorder-SetupSucceeds = record {
  add_to_scheme = λ group s. (tt, refl);
  add_built_to_scheme = λ ts s. (tt, learns_ok ts s);
  parse = λ flags s. (_, refl);
  get_config = λ s. (tt, refl);
  new_manager = λ config options s. (tt, refl);
  add_readyz_check = λ mgr name check s. (tt, refl);
  add_healthz_check = λ mgr name check s. (tt, refl);
  new_client = λ config http cache s. (tt, refl);
  new_cluster_cache_tracker = λ mgr client name s. (tt, refl);
  build = λ mgr kind r s. (tt, refl);
  complete = λ mgr kind r s. (tt, refl);
  complete_webhook = λ mgr kind r s. (tt, refl);
}

process_ends_example : EndsWith (ok tt) (process recorder []).0
process_ends_example = process_ends recorder recorder-SetupSucceeds (ok tt) (λ mgr s. refl) []
