-- ===== src/Manager/Parsed.antt =====
-- Which flags reach the manager, and which reach nothing.
use turtles_etcd_restore.Base.{
  ℕ, arith, ◌≡◌, refl, ap, ◌∙◌, String, Bool, List, [], ◌∷◌, ◌++◌, All, In, All-In,
}
use turtles_etcd_restore.Manager.Flags.{
  ℤ, Flag, Settings, Value, text, switch, duration, integer, init_flags, store_value, store_values,
  with_defaults, zero_settings,
}
use turtles_etcd_restore.Manager.Framework.{Framework, ManagerOptions, goes_on}
use turtles_etcd_restore.Manager.Main.{manager_options}

-- What pflag documents of registrations and of `Parse`, for a command line that gives these values:
-- the variables have the defaults of their flags, and then each value is stored, in their order.
pub record Parses (f : Framework) (given : List (String × Value)) : Type 0 where
  pub stores :
      (flags : List Flag) (st : f.State) (s : Settings)
      → (f.parse flags st).0 ≡ goes_on s
      → s ≡ store_values flags given (with_defaults flags zero_settings)

abbrev pub unused_flags : List String
unused_flags =
    "watch-filter" ∷ "profiler-address" ∷ "concurrency" ∷ "rancher-kubeconfig"
    ∷ "insecure-skip-verify" ∷ []

-- The flags that the manager is made with, and where their values are among its options.
abbrev pub used_flags : List (String × (ManagerOptions → Value))
used_flags =
    ("metrics-bind-addr", λ o. text o.metrics_bind_address)
    ∷ ("leader-elect", λ o. switch o.leader_election)
    ∷ ("leader-elect-lease-duration", λ o. duration o.lease_duration)
    ∷ ("leader-elect-renew-deadline", λ o. duration o.renew_deadline)
    ∷ ("leader-elect-retry-period", λ o. duration o.retry_period)
    ∷ ("sync-period", λ o. duration o.sync_period)
    ∷ ("health-addr", λ o. text o.health_probe_bind_address)
    ∷ ("webhook-port", λ o. integer o.webhook_port)
    ∷ ("webhook-cert-dir", λ o. text o.webhook_cert_dir)
    ∷ []

abbrev pub kind_of : Value → ℕ
kind_of (text t) = 0
kind_of (switch b) = 1
kind_of (duration d) = 2
kind_of (integer n) = 3

of_text : (Q : Value → Type 0) → ((t : String) → Q (text t)) → (v : Value) → kind_of v ≡ 0 → Q v
of_text Q h (text t) k = h t
of_text Q h (switch b) k = absurd (omega (arith, k))
of_text Q h (duration d) k = absurd (omega (arith, k))
of_text Q h (integer n) k = absurd (omega (arith, k))

of_switch : (Q : Value → Type 0) → ((b : Bool) → Q (switch b)) → (v : Value) → kind_of v ≡ 1 → Q v
of_switch Q h (text t) k = absurd (omega (arith, k))
of_switch Q h (switch b) k = h b
of_switch Q h (duration d) k = absurd (omega (arith, k))
of_switch Q h (integer n) k = absurd (omega (arith, k))

of_duration : (Q : Value → Type 0) → ((d : ℤ) → Q (duration d)) → (v : Value) → kind_of v ≡ 2 → Q v
of_duration Q h (text t) k = absurd (omega (arith, k))
of_duration Q h (switch b) k = absurd (omega (arith, k))
of_duration Q h (duration d) k = h d
of_duration Q h (integer n) k = absurd (omega (arith, k))

of_integer : (Q : Value → Type 0) → ((n : ℤ) → Q (integer n)) → (v : Value) → kind_of v ≡ 3 → Q v
of_integer Q h (text t) k = absurd (omega (arith, k))
of_integer Q h (switch b) k = absurd (omega (arith, k))
of_integer Q h (duration d) k = absurd (omega (arith, k))
of_integer Q h (integer n) k = h n

store_values-append :
    (flags : List Flag) (given last : List (String × Value)) (s : Settings)
    → store_values flags (given ++ last) s ≡ store_values flags last (store_values flags given s)
unfolding store_values
store_values-append flags [] last s = refl
store_values-append flags ((name, v) ∷ rest) last s =
    store_values-append flags rest last (store_value flags name v s)

module _ (f : Framework) where
  -- The options after one more value.
  abbrev options_with : String → Value → Settings → ManagerOptions
  options_with name v s = manager_options f (store_value init_flags name v s)

  abbrev Ignored : String → Type 0
  Ignored name = (v : Value) (s : Settings) → options_with name v s ≡ manager_options f s

  by_kind :
      (name : String)
      → ((t : String) (s : Settings) → options_with name (text t) s ≡ manager_options f s)
      → ((b : Bool) (s : Settings) → options_with name (switch b) s ≡ manager_options f s)
      → ((d : ℤ) (s : Settings) → options_with name (duration d) s ≡ manager_options f s)
      → ((n : ℤ) (s : Settings) → options_with name (integer n) s ≡ manager_options f s)
      → Ignored name
  by_kind name on_text on_switch on_duration on_integer (text t) s = on_text t s
  by_kind name on_text on_switch on_duration on_integer (switch b) s = on_switch b s
  by_kind name on_text on_switch on_duration on_integer (duration d) s = on_duration d s
  by_kind name on_text on_switch on_duration on_integer (integer n) s = on_integer n s

  unused_flags-Ignored : All Ignored unused_flags
  unfolding init_flags store_value
  unused_flags-Ignored = (
    by_kind "watch-filter" (λ t s. refl) (λ b s. refl) (λ d s. refl) (λ n s. refl),
    (
      by_kind "profiler-address" (λ t s. refl) (λ b s. refl) (λ d s. refl) (λ n s. refl),
      (
        by_kind "concurrency" (λ t s. refl) (λ b s. refl) (λ d s. refl) (λ n s. refl),
        (
          by_kind "rancher-kubeconfig" (λ t s. refl) (λ b s. refl) (λ d s. refl) (λ n s. refl),
          (
            by_kind "insecure-skip-verify" (λ t s. refl) (λ b s. refl) (λ d s. refl) (λ n s. refl),
            tt,
          ),
        ),
      ),
    ),
  )

  values_ignored :
      (given : List (String × Value)) (s : Settings)
      → All (λ g. In g.0 unused_flags) given
      → manager_options f (store_values init_flags given s) ≡ manager_options f s
  unfolding store_values
  values_ignored [] s h = refl
  values_ignored ((name, v) ∷ rest) s (h, hs) =
      values_ignored rest (store_value init_flags name v s) hs
      ∙ All-In Ignored unused_flags unused_flags-Ignored h v s

  -- Where pflag does what it documents: values for the flags watch-filter, profiler-address,
  -- concurrency, rancher-kubeconfig and insecure-skip-verify, however many and whatever they are,
  -- leave the options that the manager is made with as they are by default.
  pub unused_flags_ignored :
      (given : List (String × Value)) (st : f.State) (s : Settings)
      → Parses f given
      → All (λ g. In g.0 unused_flags) given
      → (f.parse init_flags st).0 ≡ goes_on s
      → manager_options f s ≡ manager_options f (with_defaults init_flags zero_settings)
  unused_flags_ignored given st s k h e =
      ap (manager_options f) (k.stores init_flags st s e) ∙ values_ignored given _ h

  abbrev Reaches : String × (ManagerOptions → Value) → Type 0
  Reaches (name, shown) =
      (s : Settings) (v : Value)
      → kind_of v ≡ kind_of (shown (manager_options f zero_settings))
      → shown (options_with name v s) ≡ v

  used_flags-Reaches : All Reaches used_flags
  unfolding init_flags store_value
  used_flags-Reaches = (
    λ s. of_text _ (λ t. refl),
    (
      λ s. of_switch _ (λ b. refl),
      (
        λ s. of_duration _ (λ d. refl),
        (
          λ s. of_duration _ (λ d. refl),
          (
            λ s. of_duration _ (λ d. refl),
            (
              λ s. of_duration _ (λ d. refl),
              (
                λ s. of_text _ (λ t. refl),
                (λ s. of_integer _ (λ n. refl), (λ s. of_text _ (λ t. refl), tt)),
              ),
            ),
          ),
        ),
      ),
    ),
  )

  -- Where pflag does what it documents: if the command line ends with a value for one of the nine
  -- flags that the manager is made with, of the flag's kind, then the manager gets this value,
  -- whatever was given before.
  pub last_value_used :
      (given : List (String × Value)) (name : String) (shown : ManagerOptions → Value) (v : Value)
      (st : f.State) (s : Settings)
      → Parses f (given ++ ((name, v) ∷ []))
      → In (name, shown) used_flags
      → kind_of v ≡ kind_of (shown (manager_options f zero_settings))
      → (f.parse init_flags st).0 ≡ goes_on s
      → shown (manager_options f s) ≡ v
  unfolding store_values
  last_value_used given name shown v st s k u kind e =
      ap (λ (x : Settings). shown (manager_options f x))
        (k.stores init_flags st s e
          ∙ store_values-append init_flags given ((name, v) ∷ [])
              (with_defaults init_flags zero_settings))
      ∙ All-In Reaches used_flags used_flags-Reaches u _ v kind
