-- ===== src/Images/Examples.antt =====
-- Tests of the image functions, and their theorems at concrete inputs.
use frappe_operator.Common.{◌≡◌, none, [], ◌∷◌, refl, split}
use frappe_operator.Kube.{failed, got, lookup}
use frappe_operator.Images.{get_bench_image, get_backup_image, get_restore_image}
use frappe_operator.Images.Agreement.{get_restore_image-eq-get_backup_image}
use frappe_operator.Admission.{validate_bench}
use frappe_operator.Fixtures.{prod_spec, missing}

bench_image_test : get_bench_image (failed missing) prod_spec ≡ "acme/erp:v15"
unfolding get_bench_image
bench_image_test = refl

operator_image_test :
    get_bench_image
      (got (("defaultFrappeImage", "mirror/erp:v14") ∷ []))
      (record prod_spec { image_config = none })
    ≡ "mirror/erp:v15"
unfolding get_bench_image lookup split
operator_image_test = refl

prod-admitted : validate_bench prod_spec ≡ none
unfolding validate_bench
prod-admitted = refl

get_restore_image-eq-get_backup_image_example :
    get_restore_image prod_spec ≡ get_backup_image prod_spec
get_restore_image-eq-get_backup_image_example =
    get_restore_image-eq-get_backup_image prod_spec prod-admitted
