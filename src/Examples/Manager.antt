-- ===== src/Examples/Manager.antt =====
-- Instances of the theorems on the operator's binary: a start where the readiness check is refused,
-- and the default flags.
use migcontroller.Prelude.{◌≡◌, [], ◌∷◌}
use migcontroller.Objects.{Except, ok, not_found}
use migcontroller.Manager.{TlsConfig, Step, add_readyz_check, default_flags, manager_options, main}
use migcontroller.Manager.Start.{
  all_steps, StartsOrFails, configured, offers, main-StartsOrFails, servers_offer,
}
use migcontroller.Examples.Cluster.{fault}

abbrev unready : Step → Except (Unit {0})
unready (add_readyz_check name) = fault not_found
unready step = ok tt

main-StartsOrFails_example :
    StartsOrFails unready (all_steps default_flags) (main unready default_flags)
main-StartsOrFails_example = main-StartsOrFails unready default_flags

abbrev both : TlsConfig
both = record { next_protos = "h2" ∷ "http/1.1" ∷ [] }

servers_offer_example :
    ((configured (manager_options default_flags).metrics.tls_opts both).next_protos
      ≡ offers default_flags both)
    × ((configured (manager_options default_flags).webhook.tls_opts both).next_protos
        ≡ offers default_flags both)
servers_offer_example = servers_offer default_flags both
