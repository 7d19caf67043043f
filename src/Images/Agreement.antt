-- ===== src/Images/Agreement.antt =====
-- Where the three image functions agree.
use frappe_operator.Common.{◌≡◌, ◌≢◌, String, Option, none, some, List, refl, arith, eq_iff}
use frappe_operator.Types.{ImageConfig, BenchSpec}
use frappe_operator.Kube.{Got}
use frappe_operator.Admission.{validate_bench}
use frappe_operator.Admission.Laws.{validate_bench_iff}
use frappe_operator.Images.{
  tagged, image_of_config, with_config, restore_image_of_config, restore_with_config,
  get_bench_image, get_backup_image, get_restore_image,
}

restore_image_of_config-eq :
    (c : ImageConfig) (version : String)
    → version ≢ ""
    → restore_image_of_config c version ≡ image_of_config c version
unfolding restore_image_of_config image_of_config
restore_image_of_config-eq c version ne = ground (arith, eq_iff version "")

restore_with_config-eq :
    (o : Option ImageConfig) (version : String)
    → version ≢ ""
    → restore_with_config o version ≡ with_config o version (tagged "frappe/erpnext" version)
unfolding restore_with_config with_config
restore_with_config-eq none version ne = refl
restore_with_config-eq (some c) version ne = ground (arith, restore_image_of_config-eq c version ne)

-- For a bench for which `validateBench` returns nil, backups and restores run in the same image.
pub get_restore_image-eq-get_backup_image :
    (s : BenchSpec) → validate_bench s ≡ none → get_restore_image s ≡ get_backup_image s
unfolding get_restore_image get_backup_image
get_restore_image-eq-get_backup_image s h =
    restore_with_config-eq s.image_config s.frappe_version ((validate_bench_iff s).0 h).0

abbrev pub HasRepository : Option ImageConfig → Type 0
HasRepository none = ⊥
HasRepository (some c) = c.repository ≢ ""

with_config-other :
    (o : Option ImageConfig) (version x y : String)
    → HasRepository o
    → with_config o version x ≡ with_config o version y
unfolding with_config
with_config-other none version x y h = absurd h
with_config-other (some c) version x y h = ground (arith, eq_iff c.repository "")

-- If the bench sets an image repository, its backups run in the image of its own workloads,
-- whatever the operator's ConfigMap says.
pub get_backup_image-eq-get_bench_image :
    (m : Got (List (String × String))) (s : BenchSpec)
    → HasRepository s.image_config
    → get_backup_image s ≡ get_bench_image m s
unfolding get_backup_image get_bench_image
get_backup_image-eq-get_bench_image m s h = with_config-other s.image_config s.frappe_version _ _ h
