-- ===== src/Sync/Fields.antt =====
-- What `extractFieldsFromETCDSnapshotFile` accepts, against a description of the files.
use turtles_etcd_restore.Base.{String, ◌≡◌, ◌∙◌, ◌↔◌, refl, Option, none, some, Bool, ap}
use mathlib.Core.Option.{some-injective}
use turtles_etcd_restore.Go.Outcome.{Outcome, ok}
use turtles_etcd_restore.Unstructured.{
  Value, null, boolean, text, integer, float, array, object, Fields, lookup, as_object, as_text,
  as_boolean,
}
use turtles_etcd_restore.Sync.Extract.{SnapshotFields, ◌>=>◌, asserted, extract_fields}

-- The file has the parts that a snapshot file has, with the fields of the snapshot in them.
abbrev pub Describes : Fields → SnapshotFields → Type 0
Describes file snapshot =
    (metadata : Fields) × (spec : Fields) × (status : Fields) × (lookup "metadata" file
      ≡ object metadata)
    × (lookup "name" metadata ≡ text snapshot.snapshot_name)
    × (lookup "spec" file ≡ object spec)
    × (lookup "location" spec ≡ text snapshot.location)
    × (lookup "nodeName" spec ≡ text snapshot.node_name)
    × (lookup "status" file ≡ object status)
    × (lookup "readyToUse" status ≡ boolean snapshot.ready_to_use)

as_object-some : (v : Value) {x : Fields} → as_object v ≡ some x → v ≡ object x
as_object-some (object fields) h = cc
as_object-some null h = cc
as_object-some (boolean b) h = cc
as_object-some (text s) h = cc
as_object-some (integer s) h = cc
as_object-some (float s) h = cc
as_object-some (array xs) h = cc

as_text-some : (v : Value) {x : String} → as_text v ≡ some x → v ≡ text x
as_text-some (text s) h = cc
as_text-some null h = cc
as_text-some (boolean b) h = cc
as_text-some (object s) h = cc
as_text-some (integer s) h = cc
as_text-some (float s) h = cc
as_text-some (array xs) h = cc

as_boolean-some : (v : Value) {x : Bool} → as_boolean v ≡ some x → v ≡ boolean x
as_boolean-some (boolean b) h = cc
as_boolean-some null h = cc
as_boolean-some (text b) h = cc
as_boolean-some (object s) h = cc
as_boolean-some (integer s) h = cc
as_boolean-some (float s) h = cc
as_boolean-some (array xs) h = cc

ok-injective : {A : Type 0} {a b : A} → ok a ≡ ok b → a ≡ b
ok-injective e = cc

-- A chain that succeeds has found its first field.
asserted-ok :
    {A B : Type 0} (o : Option A) (message : String) (f : A → Outcome B) {b : B}
    → (asserted o message >=> f) ≡ ok b
    → (a : A) × (o ≡ some a) × (f a ≡ ok b)
asserted-ok none message f h = cc
asserted-ok (some a) message f h = (a, refl, h)

asserted-some :
    {A B : Type 0} (o : Option A) (message : String) (f : A → Outcome B) (a : A) {r : Outcome B}
    → o ≡ some a
    → f a ≡ r
    → (asserted o message >=> f) ≡ r
asserted-some none message f a h e = cc
asserted-some (some x) message f a h e = ap f (some-injective _ _ h) ∙ e

-- The extraction succeeds exactly on the files that describe a snapshot, and its results are the
-- snapshot that the file describes.
pub extract_fields_iff :
    (file : Fields) (snapshot : SnapshotFields)
    → (extract_fields file ≡ ok snapshot) ↔ Describes file snapshot
unfolding extract_fields
extract_fields_iff file snapshot = (accepted, accepts)
  where
    accepted : extract_fields file ≡ ok snapshot → Describes file snapshot
    accepted h =
        let (metadata, m, h₁) = asserted-ok (as_object (lookup "metadata" file)) _ _ h in
        let (name, n, h₂) = asserted-ok (as_text (lookup "name" metadata)) _ _ h₁ in
        let (spec, p, h₃) = asserted-ok (as_object (lookup "spec" file)) _ _ h₂ in
        let (location, l, h₄) = asserted-ok (as_text (lookup "location" spec)) _ _ h₃ in
        let (node_name, o, h₅) = asserted-ok (as_text (lookup "nodeName" spec)) _ _ h₄ in
        let (status, t, h₆) = asserted-ok (as_object (lookup "status" file)) _ _ h₅ in
        let (ready, r, h₇) = asserted-ok (as_boolean (lookup "readyToUse" status)) _ _ h₆ in
        (
          metadata,
          spec,
          status,
          as_object-some _ m,
          as_text-some _ n ∙ ap (λ (y : SnapshotFields). text y.snapshot_name) (ok-injective h₇),
          as_object-some _ p,
          as_text-some _ l ∙ ap (λ (y : SnapshotFields). text y.location) (ok-injective h₇),
          as_text-some _ o ∙ ap (λ (y : SnapshotFields). text y.node_name) (ok-injective h₇),
          as_object-some _ t,
          as_boolean-some _ r
              ∙ ap (λ (y : SnapshotFields). boolean y.ready_to_use) (ok-injective h₇),
        )

    accepts : Describes file snapshot → extract_fields file ≡ ok snapshot
    accepts (metadata, spec, status, m, n, p, l, o, t, r) =
        asserted-some _ _ _ metadata (ap as_object m) (
          asserted-some _ _ _ snapshot.snapshot_name (ap as_text n) (
            asserted-some _ _ _ spec (ap as_object p) (
              asserted-some _ _ _ snapshot.location (ap as_text l) (
                asserted-some _ _ _ snapshot.node_name (ap as_text o) (
                  asserted-some _ _ _ status (ap as_object t)
                    (asserted-some _ _ _ snapshot.ready_to_use (ap as_boolean r) refl))))))
