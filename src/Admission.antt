-- ===== src/Admission.antt =====
-- `validateSite` and `validateBench` of api/v1alpha1/frappesite_webhook.go and frappebench_webhook.go.
-- `ValidateCreate` and `ValidateUpdate` call them on their receiver, not on the submitted resource, and
-- main.go registers neither webhook.
-- `none` is `return nil`.
pub mod Laws
mod Examples
use frappe_operator.Common.{
  String, Bool, true, false, ◌&&◌, ◌||◌, not, Option, none, some, List, [], ◌∷◌, str_eq,
  if◌then◌else◌,
}
use frappe_operator.Common.Int.{ℤ, pos, negsuc}
use frappe_operator.Types.{NamespacedName, DatabaseConfig, ComponentReplicas, SiteSpec, BenchSpec}

pub data SiteError : Type 0 where
  site_name_empty bench_ref_missing bench_ref_name_empty mode_unknown : SiteError
  mariadb_ref_missing mariadb_ref_name_empty : SiteError

check_mariadb_ref : Option NamespacedName → Option SiteError
check_mariadb_ref none = some mariadb_ref_missing
check_mariadb_ref (some r) = if str_eq r.name "" then some mariadb_ref_name_empty else none

check_mode : DatabaseConfig → Option SiteError
unfolding check_mariadb_ref
check_mode c =
    if not (str_eq c.mode "") && (not (str_eq c.mode "shared") && not (str_eq c.mode "dedicated"))
    then some mode_unknown
    else if str_eq c.mode "dedicated"
    then check_mariadb_ref c.mariadb_ref
    else none

check_bench_ref : Option NamespacedName → DatabaseConfig → Option SiteError
unfolding check_mode
check_bench_ref none c = some bench_ref_missing
check_bench_ref (some r) c = if str_eq r.name "" then some bench_ref_name_empty else check_mode c

unfoldable pub validate_site : SiteSpec → Option SiteError
unfolding check_bench_ref
validate_site s =
    if str_eq s.site_name "" then some site_name_empty else check_bench_ref s.bench_ref s.db_config

pub data BenchError : Type 0 where
  version_empty no_apps gunicorn_negative socketio_negative : BenchError

abbrev is_negative : ℤ → Bool
is_negative (pos n) = false
is_negative (negsuc n) = true

abbrev is_empty {ℓ} : {A : Type ℓ} → List A → Bool
is_empty [] = true
is_empty (x ∷ xs) = false

check_replicas : Option ComponentReplicas → Option BenchError
check_replicas none = none
check_replicas (some r) =
    if is_negative r.gunicorn
    then some gunicorn_negative
    else if is_negative r.socketio
    then some socketio_negative
    else none

unfoldable pub validate_bench : BenchSpec → Option BenchError
unfolding check_replicas
validate_bench s =
    if str_eq s.frappe_version ""
    then some version_empty
    else if is_empty s.apps && str_eq s.apps_json ""
    then some no_apps
    else check_replicas s.component_replicas
