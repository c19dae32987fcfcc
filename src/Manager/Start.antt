-- ===== src/Manager/Start.antt =====
-- How the operator's binary, cmd/main.go, starts: with which options, and with which exit status.
use migcontroller.Prelude.{
  String, ◌≡◌, refl, ap, subst, ◌⊎◌, inl, inr, List, [], ◌∷◌, Bool, true, false, not, cons_last,
  Bool-cases, ◌==◌, eq_iff, if◌then◌else◌,
}
use migcontroller.Objects.{Except, ok, err, GoError}
use migcontroller.Validating.{AllOf}
use migcontroller.Manager.{
  ManagerFlags, TlsConfig, tls_opts, disable_http2, webhook_options, metrics_options,
  manager_options, Certificates, certificates, ManagerOptions, Step, get_config, new_manager,
  setup_controller, add_healthz_check, add_readyz_check, start_manager, Outcome, or_exit, main,
}

-- a server's certificate files, where a path to them is given
abbrev given_certificates : String → String → String → Certificates
given_certificates path name key = record {
  cert_dir = path;
  cert_name = if path == "" then "" else name;
  key_name = if path == "" then "" else key;
}

-- the options that the flags ask for
abbrev pub expected_options : ManagerFlags → ManagerOptions
expected_options flags =
    let only_http1 : List (TlsConfig → TlsConfig) =
      if flags.enable_http2 then [] else (λ c. record c { next_protos = "http/1.1" ∷ [] }) ∷ [] in
    record {
      metrics = record {
        bind_address = flags.metrics_addr;
        secure_serving = flags.secure_metrics;
        tls_opts = only_http1;
        has_filter = flags.secure_metrics;
        certificates =
            given_certificates flags.metrics_cert_path flags.metrics_cert_name
              flags.metrics_cert_key;
      };
      webhook = record {
        tls_opts = only_http1;
        certificates =
            given_certificates flags.webhook_cert_path flags.webhook_cert_name
              flags.webhook_cert_key;
      };
      health_probe_bind_address = flags.probe_addr;
      leader_election = flags.enable_leader_election;
      leader_election_id = "5e073c33.maurice.fr";
    }

certificates-given :
    (path name key : String) → certificates path name key ≡ given_certificates path name key
unfolding certificates
certificates-given path name key = elim (Bool-cases (path == "")) [
  | inr e ↦ rw e refl
  | inl e ↦ rw (e, (eq_iff path "").0 e) refl
]

tls_opts-expected :
    (flags : ManagerFlags) (b : Bool)
    → (if not b then cons_last [] disable_http2 else [])
      ≡ (if b then [] else (λ c. record c { next_protos = "http/1.1" ∷ [] }) ∷ [])
unfolding disable_http2
tls_opts-expected flags true = refl
tls_opts-expected flags false = refl

filter-expected : (b : Bool) → (if b then true else false) ≡ b
filter-expected true = refl
filter-expected false = refl

manager_options-expected : (flags : ManagerFlags) → manager_options flags ≡ expected_options flags
unfolding manager_options metrics_options webhook_options tls_opts
manager_options-expected flags =
    rw
      (
        certificates-given flags.metrics_cert_path flags.metrics_cert_name flags.metrics_cert_key,
        certificates-given flags.webhook_cert_path flags.webhook_cert_name flags.webhook_cert_key,
        tls_opts-expected flags flags.enable_http2,
        filter-expected flags.secure_metrics,
      )
      refl

-- the steps of a start without an error
abbrev steps_with : ManagerOptions → List Step
steps_with options =
    get_config
    ∷ new_manager options
    ∷ setup_controller
    ∷ add_healthz_check "healthz"
    ∷ add_readyz_check "readyz"
    ∷ start_manager
    ∷ []

abbrev pub all_steps : ManagerFlags → List Step
all_steps flags = steps_with (expected_options flags)

-- The steps that were tried are the first of those listed, up to one that failed.
pub data FailsIn (runtime : Step → Except (Unit {0})) : List Step → List Step → Type 0 where
  fails :
      {s : Step} {rest : List Step} (e : GoError)
      → runtime s ≡ err e
      → FailsIn runtime (s ∷ rest) (s ∷ [])
  passes :
      {s : Step} {rest tried : List Step}
      → runtime s ≡ ok tt
      → FailsIn runtime rest tried
      → FailsIn runtime (s ∷ rest) (s ∷ tried)

abbrev pub Succeeds : (Step → Except (Unit {0})) → List Step → Type 0
Succeeds runtime = AllOf λ s. runtime s ≡ ok tt

abbrev pub StartsOrFails : (Step → Except (Unit {0})) → List Step → Outcome → Type 0
StartsOrFails runtime steps o =
    ((o.status ≡ 0) × (o.tried ≡ steps) × Succeeds runtime steps)
    ⊎ ((o.status ≡ 1) × FailsIn runtime steps o.tried)

or_exit-StartsOrFails :
    (runtime : Step → Except (Unit {0})) (s : Step) (steps : List Step) (o : Outcome)
    → StartsOrFails runtime steps o
    → StartsOrFails runtime (s ∷ steps) (or_exit runtime s o)
or_exit-StartsOrFails runtime s steps o rest = at (runtime s) refl rest
  where
    at :
        (r : Except (Unit {0}))
        → runtime s ≡ r
        → StartsOrFails runtime steps o
        → StartsOrFails runtime (s ∷ steps) (elim r [
          | err _ ↦ record { tried = s ∷ []; status = 1 }
          | ok _ ↦ record { tried = s ∷ o.tried; status = o.status }
        ])
    at (err x) e rest = inr (refl, fails x e)
    at (ok tt) e (inl (done, same, all)) = inl (done, ap (λ ss. s ∷ ss) same, (e, all))
    at (ok tt) e (inr (broke, where_to)) = inr (broke, passes e where_to)

-- A start of the operator's binary tries to read the configuration, create the manager with the
-- options that the flags give, set up the controller, add the health and the readiness check, and
-- start the manager, in this order; it returns with status 0 exactly after each of them succeeded,
-- and otherwise exits with status 1 behind the first that fails.
pub main-StartsOrFails :
    (runtime : Step → Except (Unit {0})) (flags : ManagerFlags)
    → StartsOrFails runtime (all_steps flags) (main runtime flags)
unfolding main
main-StartsOrFails runtime flags =
    subst (λ (o : ManagerOptions). StartsOrFails runtime (steps_with o) (main runtime flags))
      (manager_options-expected flags)
      (or_exit-StartsOrFails runtime get_config _ _ (
        or_exit-StartsOrFails runtime (new_manager (manager_options flags)) _ _ (
          or_exit-StartsOrFails runtime setup_controller _ _ (
            or_exit-StartsOrFails runtime (add_healthz_check "healthz") _ _ (
              or_exit-StartsOrFails runtime (add_readyz_check "readyz") _ _ (
                or_exit-StartsOrFails runtime start_manager [] (record { tried = []; status = 0 })
                  (inl (refl, refl, tt))))))))

-- A server's options, one after the other, on its configuration.
abbrev pub configured : List (TlsConfig → TlsConfig) → TlsConfig → TlsConfig
configured [] c = c
configured (opt ∷ rest) c = configured rest (opt c)

-- what a server offers to a client that may want HTTP/2
abbrev pub offers : ManagerFlags → TlsConfig → List String
offers flags c = if flags.enable_http2 then c.next_protos else "http/1.1" ∷ []

configured-tls_opts :
    (flags : ManagerFlags) (b : Bool) (c : TlsConfig)
    → flags.enable_http2 ≡ b
    → (configured (tls_opts flags) c).next_protos ≡ offers flags c
unfolding tls_opts disable_http2
configured-tls_opts flags true c e = rw e refl
configured-tls_opts flags false c e = rw e refl

-- With the TLS options that the flags give them, the metrics server and the webhook server offer
-- HTTP/1.1 alone unless HTTP/2 is enabled, and otherwise what their configuration offers.
pub servers_offer :
    (flags : ManagerFlags) (c : TlsConfig)
    → ((configured (manager_options flags).metrics.tls_opts c).next_protos ≡ offers flags c)
      × ((configured (manager_options flags).webhook.tls_opts c).next_protos ≡ offers flags c)
unfolding manager_options metrics_options webhook_options
servers_offer flags c = (
  configured-tls_opts flags flags.enable_http2 c refl,
  configured-tls_opts flags flags.enable_http2 c refl,
)
