-- ===== src/Admission/Examples.antt =====
-- Tests of the validation functions, and their theorems at concrete inputs.
use frappe_operator.Common.{◌≡◌, ◌≢◌, ◌↔◌, none, refl}
use frappe_operator.Admission.{validate_site, validate_bench}
use frappe_operator.Admission.Laws.{IsNamed, IsKnownMode, validate_site_iff}
use frappe_operator.Fixtures.{shop_spec, prod_spec, dedicated_config}

dedicated_test : validate_site shop_spec ≡ none
unfolding validate_site
dedicated_test = refl

no_server_test :
    validate_site (record shop_spec { db_config = record dedicated_config { mariadb_ref = none } })
    ≢ none
unfolding validate_site
no_server_test = cc

bench_test : validate_bench prod_spec ≡ none
unfolding validate_bench
bench_test = refl

validate_site_iff_example :
    (validate_site shop_spec ≡ none)
    ↔ ((shop_spec.site_name ≢ "") × IsNamed shop_spec.bench_ref × IsKnownMode shop_spec.db_config)
validate_site_iff_example = validate_site_iff shop_spec
