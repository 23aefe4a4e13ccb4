-- ===== src/Tests/FlagRuns.antt =====
-- Command lines, over the framework of the recorded runs.
use turtles_etcd_restore.Base.{◌≡◌, refl, sym, ap, inl, inr, String, List, [], ◌∷◌, ◌*◌}
use turtles_etcd_restore.Manager.Flags.{
  Settings, Value, text, duration, integer, pos, minute, store_values, with_defaults, init_flags,
  zero_settings,
}
use turtles_etcd_restore.Manager.Framework.{Framework, Run, goes_on, exits}
use turtles_etcd_restore.Manager.Main.{manager_options}
use turtles_etcd_restore.Manager.Parsed.{Parses, unused_flags_ignored, last_value_used}
use turtles_etcd_restore.Tests.ManagerRuns.{recorder}

-- The variables after a command line that gives these values.
abbrev parsed : List (String × Value) → Settings
parsed given = store_values init_flags given (with_defaults init_flags zero_settings)

sync_period_default : (parsed []).sync_period ≡ pos (10 * minute)
unfolding init_flags store_values with_defaults
sync_period_default = refl

abbrev given_to : List (String × Value) → Framework
given_to given = record recorder {
  parse = λ flags s. (goes_on (store_values flags given (with_defaults flags zero_settings)), s);
}

abbrev settings_of : Run Settings → Settings
settings_of (goes_on s) = s
settings_of (exits code) = zero_settings

given_to-Parses : (given : List (String × Value)) → Parses (given_to given) given
given_to-Parses given = record { stores = λ flags st s e. ap settings_of (sym e) }

abbrev without_effect : List (String × Value)
without_effect = ("concurrency", integer (pos 4)) ∷ ("profiler-address", text ":6060") ∷ []

unused_flags_ignored_example :
    manager_options (given_to without_effect) (parsed without_effect)
    ≡ manager_options (given_to without_effect) (parsed [])
unfolding store_values
unused_flags_ignored_example =
    unused_flags_ignored (given_to without_effect) without_effect [] (parsed without_effect)
      (given_to-Parses without_effect) (inr (inr (inl refl)), (inr (inl refl), tt)) refl

abbrev two_periods : List (String × Value)
two_periods = ("sync-period", duration (pos minute)) ∷ ("sync-period", duration (pos 7)) ∷ []

last_value_used_example :
    duration (manager_options (given_to two_periods) (parsed two_periods)).sync_period
    ≡ duration (pos 7)
last_value_used_example =
    last_value_used (given_to two_periods) (("sync-period", duration (pos minute)) ∷ [])
      "sync-period" (λ o. duration o.sync_period) (duration (pos 7)) [] (parsed two_periods)
      (given_to-Parses two_periods) (inr (inr (inr (inr (inr (inl refl)))))) refl refl
