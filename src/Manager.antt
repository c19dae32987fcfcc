-- ===== src/Manager.antt =====
-- The operator's binary: cmd/main.go. Its flags, the options that they give the manager, and its
-- start, step by step. Logging is left out.
pub mod Start
use migcontroller.Prelude.{
  ℕ, String, List, [], ◌∷◌, Bool, true, false, not, ◌==◌, cons_last, if◌then◌else◌,
}
use migcontroller.Objects.{Except, ok, err}

-- The variables of the flags, once they are parsed.
pub record ManagerFlags : Type 0 where
  pub metrics_addr : String
  pub metrics_cert_path : String
  pub metrics_cert_name : String
  pub metrics_cert_key : String
  pub webhook_cert_path : String
  pub webhook_cert_name : String
  pub webhook_cert_key : String
  pub enable_leader_election : Bool
  pub probe_addr : String
  pub secure_metrics : Bool
  pub enable_http2 : Bool

-- the defaults that main declares
abbrev pub default_flags : ManagerFlags
default_flags = record {
  metrics_addr = "0";
  metrics_cert_path = "";
  metrics_cert_name = "tls.crt";
  metrics_cert_key = "tls.key";
  webhook_cert_path = "";
  webhook_cert_name = "tls.crt";
  webhook_cert_key = "tls.key";
  enable_leader_election = false;
  probe_addr = ":8081";
  secure_metrics = true;
  enable_http2 = false;
}

-- *tls.Config, by the field that is set
pub record TlsConfig : Type 0 where
  pub next_protos : List String

unfoldable pub disable_http2 : TlsConfig → TlsConfig
disable_http2 c = record c { next_protos = "http/1.1" ∷ [] }

-- tlsOpts
unfoldable pub tls_opts : ManagerFlags → List (TlsConfig → TlsConfig)
unfolding disable_http2
tls_opts flags = if not flags.enable_http2 then cons_last [] disable_http2 else []

-- CertDir, CertName and KeyName
pub record Certificates : Type 0 where
  pub cert_dir : String
  pub cert_name : String
  pub key_name : String

-- `if len(path) > 0`: without a path the fields stay empty
unfoldable pub certificates : String → String → String → Certificates
certificates path name key =
    if not (path == "")
    then record { cert_dir = path; cert_name = name; key_name = key }
    else record { cert_dir = ""; cert_name = ""; key_name = "" }

-- webhook.Options
pub record WebhookOptions : Type 0 where
  pub tls_opts : List (TlsConfig → TlsConfig)
  pub certificates : Certificates

-- metricsserver.Options; whether the FilterProvider is set
pub record MetricsOptions : Type 0 where
  pub bind_address : String
  pub secure_serving : Bool
  pub tls_opts : List (TlsConfig → TlsConfig)
  pub has_filter : Bool
  pub certificates : Certificates

-- ctrl.Options
pub record ManagerOptions : Type 0 where
  pub metrics : MetricsOptions
  pub webhook : WebhookOptions
  pub health_probe_bind_address : String
  pub leader_election : Bool
  pub leader_election_id : String

unfoldable pub webhook_options : ManagerFlags → WebhookOptions
unfolding tls_opts certificates
webhook_options flags = record {
  tls_opts = tls_opts flags;
  certificates =
      certificates flags.webhook_cert_path flags.webhook_cert_name flags.webhook_cert_key;
}

unfoldable pub metrics_options : ManagerFlags → MetricsOptions
unfolding tls_opts certificates
metrics_options flags = record {
  bind_address = flags.metrics_addr;
  secure_serving = flags.secure_metrics;
  tls_opts = tls_opts flags;
  has_filter = if flags.secure_metrics then true else false;
  certificates =
      certificates flags.metrics_cert_path flags.metrics_cert_name flags.metrics_cert_key;
}

unfoldable pub manager_options : ManagerFlags → ManagerOptions
unfolding webhook_options metrics_options
manager_options flags = record {
  metrics = metrics_options flags;
  webhook = webhook_options flags;
  health_probe_bind_address = flags.probe_addr;
  leader_election = flags.enable_leader_election;
  leader_election_id = "5e073c33.maurice.fr";
}

-- The calls of controller-runtime that may fail, in no order.
pub data Step : Type 0 where
  get_config : Step
  new_manager : ManagerOptions → Step
  setup_controller : Step
  add_healthz_check add_readyz_check : String → Step
  start_manager : Step

-- The steps that were tried, and the exit status.
pub record Outcome : Type 0 where
  pub tried : List Step
  pub status : ℕ

-- `if err := step; err != nil { os.Exit(1) }`, and what follows
abbrev pub or_exit : (Step → Except (Unit {0})) → Step → Outcome → Outcome
or_exit runtime step rest = elim (runtime step) [
  | err _ ↦ record { tried = step ∷ []; status = 1 }
  | ok _ ↦ record { tried = step ∷ rest.tried; status = rest.status }
]

unfoldable pub main : (Step → Except (Unit {0})) → ManagerFlags → Outcome
unfolding manager_options
main runtime flags = or_exit runtime get_config (
    or_exit runtime (new_manager (manager_options flags)) (
      or_exit runtime setup_controller (
        or_exit runtime (add_healthz_check "healthz") (
          or_exit runtime (add_readyz_check "readyz")
            (or_exit runtime start_manager (record { tried = []; status = 0 }))))))
