-- ===== src/Manager/Flags.antt =====
-- The flags of cmd/main.go, as what `initFlags` gives to pflag; the texts that describe the flags
-- are left out.
use turtles_etcd_restore.Base.{ℕ, ◌*◌, String, Bool, false, List, [], ◌∷◌, ◌==◌, if◌then◌else◌}

-- A Go `int` or a `time.Duration` in nanoseconds.
pub data ℤ : Type 0 where
  pos : ℕ → ℤ
  negsuc : ℕ → ℤ

abbrev pub second : ℕ
second = 1000000000

abbrev pub minute : ℕ
minute = 60 * second

-- The variables of the command, under their names.
pub record Settings : Type 0 where
  pub metrics_bind_addr : String
  pub enable_leader_election : Bool
  pub leader_election_lease_duration : ℤ
  pub leader_election_renew_deadline : ℤ
  pub leader_election_retry_period : ℤ
  pub watch_filter_value : String
  pub profiler_address : String
  pub sync_period : ℤ
  pub health_addr : String
  pub concurrency_number : ℤ
  pub rancher_kubeconfig : String
  pub insecure_skip_verify : Bool
  pub webhook_port : ℤ
  pub webhook_cert_dir : String

-- The zero values, which the variables have before `initFlags`.
abbrev pub zero_settings : Settings
zero_settings = record {
  metrics_bind_addr = "";
  enable_leader_election = false;
  leader_election_lease_duration = pos 0;
  leader_election_renew_deadline = pos 0;
  leader_election_retry_period = pos 0;
  watch_filter_value = "";
  profiler_address = "";
  sync_period = pos 0;
  health_addr = "";
  concurrency_number = pos 0;
  rancher_kubeconfig = "";
  insecure_skip_verify = false;
  webhook_port = pos 0;
  webhook_cert_dir = "";
}

-- A value that the command line gives, by the kind of its flag.
pub data Value : Type 0 where
  text : String → Value
  switch : Bool → Value
  duration integer : ℤ → Value

-- What a registration gives to pflag: the name and the default of the flag, and the variable, as
-- what a write through the pointer to it does; a value of another kind is never written.
pub record Flag : Type 0 where
  pub name : String
  pub default : Value
  pub store : Value → Settings → Settings

abbrev on_text : (String → Settings → Settings) → Value → Settings → Settings
on_text set (text v) s = set v s
on_text set _ s = s

-- The arguments of `fs.StringVar`, with the write to the variable as the first one
abbrev string_var : (String → Settings → Settings) → String → String → Flag
string_var set name default = record { name = name; default = text default; store = on_text set }

abbrev on_switch : (Bool → Settings → Settings) → Value → Settings → Settings
on_switch set (switch v) s = set v s
on_switch set _ s = s

-- The arguments of `fs.BoolVar`, with the write to the variable as the first one
abbrev bool_var : (Bool → Settings → Settings) → String → Bool → Flag
bool_var set name default = record { name = name; default = switch default; store = on_switch set }

abbrev on_duration : (ℤ → Settings → Settings) → Value → Settings → Settings
on_duration set (duration v) s = set v s
on_duration set _ s = s

-- The arguments of `fs.DurationVar`, with the write to the variable as the first one
abbrev duration_var : (ℤ → Settings → Settings) → String → ℤ → Flag
duration_var set name default = record {
  name = name;
  default = duration default;
  store = on_duration set;
}

abbrev on_integer : (ℤ → Settings → Settings) → Value → Settings → Settings
on_integer set (integer v) s = set v s
on_integer set _ s = s

-- The arguments of `fs.IntVar`, with the write to the variable as the first one
abbrev int_var : (ℤ → Settings → Settings) → String → ℤ → Flag
int_var set name default = record { name = name; default = integer default; store = on_integer set }

-- `initFlags`, as its registrations in their order
unfoldable pub init_flags : List Flag
init_flags =
    string_var (λ v s. record s { metrics_bind_addr = v }) "metrics-bind-addr" ":8080"
    ∷ bool_var (λ v s. record s { enable_leader_election = v }) "leader-elect" false
    ∷ duration_var (λ v s. record s { leader_election_lease_duration = v })
        "leader-elect-lease-duration" (pos (15 * second))
    ∷ duration_var (λ v s. record s { leader_election_renew_deadline = v })
        "leader-elect-renew-deadline" (pos (10 * second))
    ∷ duration_var (λ v s. record s { leader_election_retry_period = v })
        "leader-elect-retry-period" (pos (2 * second))
    ∷ string_var (λ v s. record s { watch_filter_value = v }) "watch-filter" ""
    ∷ string_var (λ v s. record s { profiler_address = v }) "profiler-address" ""
    ∷ duration_var (λ v s. record s { sync_period = v }) "sync-period" (pos (10 * minute))
    ∷ string_var (λ v s. record s { health_addr = v }) "health-addr" ":9440"
    ∷ int_var (λ v s. record s { concurrency_number = v }) "concurrency" (pos 1)
    ∷ string_var (λ v s. record s { rancher_kubeconfig = v }) "rancher-kubeconfig" ""
    ∷ bool_var (λ v s. record s { insecure_skip_verify = v }) "insecure-skip-verify" false
    ∷ int_var (λ v s. record s { webhook_port = v }) "webhook-port" (pos 9443)
    ∷ string_var (λ v s. record s { webhook_cert_dir = v }) "webhook-cert-dir"
        "/tmp/k8s-webhook-server/serving-certs/"
    ∷ []

-- A value that is stored in the variable of the flag of this name.
unfoldable pub store_value : List Flag → String → Value → Settings → Settings
store_value [] name v s = s
store_value (flag ∷ rest) name v s =
    if flag.name == name then flag.store v s else store_value rest name v s

unfoldable pub store_values : List Flag → List (String × Value) → Settings → Settings
unfolding store_value
store_values flags [] s = s
store_values flags ((name, v) ∷ rest) s = store_values flags rest (store_value flags name v s)

-- The variables with the defaults of the flags.
unfoldable pub with_defaults : List Flag → Settings → Settings
with_defaults [] s = s
with_defaults (flag ∷ rest) s = with_defaults rest (flag.store flag.default s)
