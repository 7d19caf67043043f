-- ===== src/Database/Examples.antt =====
-- Tests of the database components, and their theorems at concrete inputs.
use frappe_operator.Common.{◌≡◌, ◌↔◌, none, [], ◌∷◌, refl, arith}
use frappe_operator.Kube.{plain, raise, got}
use frappe_operator.Kube.Traces.{Emits}
use frappe_operator.Breaker.{new, default_config}
use frappe_operator.Database.{resolve_db_config, new_provider, external}
use frappe_operator.Database.Config.{IsExternalFor, new_provider-external_iff}
use frappe_operator.Database.MariaDbProvider as MariaDb
use frappe_operator.Database.MariaDbProvider.Writes.{
  CreatesIn, CreatesPartIn, ensure_database-CreatesIn, ensure_database-CreatesPartIn,
}
use frappe_operator.Database.Guarded.{Timed, run_guarded, run_plain, run_guarded-eq-run_plain}
use frappe_operator.Fixtures.{shop, shop_spec, prod_spec, server, empty_cluster}

new_provider-external_iff_example :
    (new_provider (resolve_db_config shop_spec prod_spec) ≡ got external) ↔ IsExternalFor none none
new_provider-external_iff_example = new_provider-external_iff shop_spec prod_spec refl

ensure_database-CreatesIn_example : Emits (CreatesIn "web") (MariaDb.ensure_database shop)
ensure_database-CreatesIn_example = ensure_database-CreatesIn shop

ensure_database-CreatesPartIn_example : Emits (CreatesPartIn "web") (MariaDb.ensure_database shop)
ensure_database-CreatesPartIn_example = ensure_database-CreatesPartIn shop server refl

abbrev failing : Timed (Unit {0})
failing = record { start = 1; end = 2; call = raise (plain "timeout") }

run_guarded-eq-run_plain_example :
    run_guarded (failing ∷ failing ∷ []) empty_cluster (new default_config) []
    ≡ run_plain (failing ∷ failing ∷ []) empty_cluster []
run_guarded-eq-run_plain_example =
    run_guarded-eq-run_plain (failing ∷ failing ∷ []) empty_cluster [] (omega arith)
