-- ===== src/Tests/ServedRuns.antt =====
-- The plan secret that the webhook made for a machine, as the restore controller finds it.
use turtles_etcd_restore.Base.{
  ◌≡◌, refl, ap, sym, Option, none, some, List, [], ◌∷◌, String, if◌then◌else◌,
}
use mathlib.Core.Path.{subst}
use turtles_etcd_restore.Objects.{Key, Secret}
use turtles_etcd_restore.Go.Bytes.{ByteMap}
use turtles_etcd_restore.Go.Outcome.{ok, done}
use turtles_etcd_restore.Restore.PlanSecret.{get_plan_secret_for_machine}
use turtles_etcd_restore.Webhook.Objects.{Object, ObjectMeta, secret}
use turtles_etcd_restore.Webhook.Created.{Held}
use turtles_etcd_restore.Webhook.Default.{rke2_config, default}
use turtles_etcd_restore.Webhook.Served.{Undisturbed, Visible, plan_secret_found}
use turtles_etcd_restore.Tests.World.{World, memory}
use turtles_etcd_restore.Tests.RestoreRuns.{node, halted}
use turtles_etcd_restore.Tests.WebhookRuns.{
  registry, registry-Rely, info_json, bare, equipped, equips, newest, same_object,
}

registry-Undisturbed : Undisturbed registry registry-Rely
registry-Undisturbed = record {
  list_keeps = λ label value x s h. h;
  setting_keeps = λ name x s h. h;
  retry_keeps = λ m x k. k;
}

abbrev secret_at : Key → Object
secret_at key =
    secret (record { name = key.name; namespace = key.namespace; labels = []; annotations = [] }) ""
      none

abbrev content_of : Option Object → Option (Option ByteMap)
content_of none = none
content_of (some _) = some none

-- The world of the restore controller on the server that the webhook has left.
abbrev left : List Object → World
left objects = record halted.store { secrets = λ key. content_of (newest objects (secret_at key)) }

abbrev after_default : List Object
after_default = (default registry info_json (rke2_config bare) []).1

newest_same :
    (objects : List Object) (m : ObjectMeta) (kind : String) (content : Option ByteMap)
    → newest objects (secret m kind content)
      ≡ newest objects (secret_at (record { namespace = m.namespace; name = m.name }))
newest_same [] m kind content = refl
newest_same (object ∷ rest) m kind content =
    ap (λ found. if same_object object (secret m kind content) then some object else found)
      (newest_same rest m kind content)

read-Held :
    (objects : List Object) (key : Key)
    → Held (newest objects (secret_at key))
    → (x : Secret) × (s : World) × (memory.get_secret key (left objects) ≡ (done x, s))
read-Held objects key (object, is) = (
  record { name = key.name; namespace = key.namespace; resource_version = ""; content = none },
  left objects,
  rw is refl,
)

visible :
    Visible registry info_json registry-Rely registry-Undisturbed memory bare after_default
      (λ s. s ≡ left after_default)
visible = record {
  config_read = λ s is. (s, refl, is);
  secret_read = λ m kind content s held is.
      subst
        (λ w.
          (x : Secret) × (s' : World) × (memory.get_secret
              (record { namespace = m.namespace; name = m.name }) w
            ≡ (done x, s')))
        (sym is)
        (read-Held after_default (record { namespace = m.namespace; name = m.name })
          (subst Held (newest_same after_default m kind content) held));
}

plan_secret_found_example :
    (x : Secret) × (s : World) × (get_plan_secret_for_machine memory
        (node "a" "10.0.0.1")
        (left after_default)
      ≡ (ok x, s))
plan_secret_found_example =
    plan_secret_found registry info_json registry-Rely registry-Undisturbed memory
      (λ s. s ≡ left after_default) bare equipped [] (node "a" "10.0.0.1") (left after_default)
      equips visible refl refl refl
