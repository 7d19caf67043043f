-- ===== src/Images.antt =====
-- The container images: pkg/constants/images.go, and the three `getBenchImage` functions of
-- controllers/utils.go (the same text in controllers/frappebench_controller.go),
-- controllers/sitebackup_controller.go and controllers/siterestore_controller.go.
pub mod Agreement
mod Examples
use Prim.Native.String.{◌++◌}
use frappe_operator.Common.{
  String, Bool, true, false, ◌&&◌, ◌||◌, not, Option, none, some, List, [], ◌∷◌, str_eq,
  if◌then◌else◌, Parts, split,
}
use frappe_operator.Types.{ImageConfig, BenchSpec, Bench}
use frappe_operator.Kube.{Got, got, failed, lookup, M, Api, ask, pure, ◌>>=◌}

abbrev pub default_frappe_image : String
default_frappe_image = "docker.io/frappe/erpnext:latest"

abbrev pub default_mariadb_image : String
default_mariadb_image = "docker.io/library/mariadb:10.6"

abbrev pub default_postgres_image : String
default_postgres_image = "docker.io/library/postgres:15-alpine"

abbrev pub default_redis_image : String
default_redis_image = "docker.io/library/redis:7-alpine"

abbrev pub default_nginx_image : String
default_nginx_image = "docker.io/library/nginx:1.25-alpine"

red_hat_image : String → String
red_hat_image image =
    if str_eq image default_mariadb_image
    then "registry.redhat.io/rhel8/mariadb-103:latest"
    else if str_eq image default_postgres_image
    then "registry.redhat.io/rhel8/postgresql-15:latest"
    else if str_eq image default_redis_image
    then "registry.redhat.io/rhel8/redis-6:latest"
    else if str_eq image default_nginx_image
    then "registry.redhat.io/rhel8/nginx-120:latest"
    else image

google_image : String → String
google_image image =
    if str_eq image default_mariadb_image
    then "gcr.io/cloud-marketplace/google/mariadb:latest"
    else if str_eq image default_postgres_image
    then "gcr.io/cloud-sql-connectors/cloud-sql-proxy:latest"
    else if str_eq image default_redis_image
    then "gcr.io/google_containers/redis:e2e"
    else image

quay_image : String → String
quay_image image =
    if str_eq image default_mariadb_image
    then "quay.io/sclorg/mariadb-103-c8s:latest"
    else if str_eq image default_postgres_image
    then "quay.io/sclorg/postgresql-15-c9s:latest"
    else if str_eq image default_redis_image
    then "quay.io/fedora/redis-7:latest"
    else image

unfoldable pub get_image_with_registry : String → String → String
unfolding red_hat_image google_image quay_image
get_image_with_registry image registry =
    if str_eq registry "registry.redhat.io"
    then red_hat_image image
    else if str_eq registry "gcr.io"
    then google_image image
    else if str_eq registry "quay.io"
    then quay_image image
    else image

-- `GetFrappeImage`
unfoldable pub get_frappe_image : String → String
get_frappe_image version =
    if str_eq version "" || str_eq version "latest"
    then default_frappe_image
    else "docker.io/frappe/erpnext:" ++ version

-- `fmt.Sprintf("%s:%s", repository, tag)`
pub tagged : String → String → String
tagged repository tag = repository ++ (":" ++ tag)

-- Priority 1 of the bench's and of the backup's function, where a repository is set.
pub image_of_config : ImageConfig → String → String
unfolding tagged
image_of_config c version =
    if not (str_eq c.tag "")
    then tagged c.repository c.tag
    else if not (str_eq version "")
    then tagged c.repository version
    else c.repository

is_pinned : String → Bool
is_pinned version = not (str_eq version "") && not (str_eq version "latest")

-- An image of the operator's configuration, with its tag replaced if it has exactly one colon.
retag : String → List String → String → String → String
unfolding tagged
retag repository (tag ∷ []) version image = tagged repository version
retag repository others version image = image

image_of_default : String → String → String
unfolding is_pinned retag
image_of_default image version =
    let parts = split b':' image in
    if is_pinned version then retag parts.first parts.others version image else image

fallback_image : String → String
unfolding is_pinned tagged
fallback_image version =
    if is_pinned version then tagged "docker.io/frappe/erpnext" version else default_frappe_image

-- The key `defaultFrappeImage` of the ConfigMap, if it was read and the value is not empty.
image_of_operator : Option String → String → String
unfolding image_of_default fallback_image
image_of_operator none version = fallback_image version
image_of_operator (some image) version =
    if str_eq image "" then fallback_image version else image_of_default image version

default_in : Got (List (String × String)) → Option String
default_in (failed e) = none
default_in (got m) = lookup "defaultFrappeImage" m

with_config : Option ImageConfig → String → String → String
unfolding image_of_config
with_config none version other = other
with_config (some c) version other =
    if str_eq c.repository "" then other else image_of_config c version

-- The image of bench and site workloads, with the operator's ConfigMap as it was read.
unfoldable pub get_bench_image : Got (List (String × String)) → BenchSpec → String
unfolding with_config image_of_operator default_in
get_bench_image config_map spec =
    with_config spec.image_config spec.frappe_version
      (image_of_operator (default_in config_map) spec.frappe_version)

-- The image of backup jobs.
unfoldable pub get_backup_image : BenchSpec → String
unfolding with_config tagged
get_backup_image spec =
    with_config spec.image_config spec.frappe_version (tagged "frappe/erpnext" spec.frappe_version)

restore_image_of_config : ImageConfig → String → String
unfolding tagged
restore_image_of_config c version =
    if not (str_eq c.tag "") then tagged c.repository c.tag else tagged c.repository version

restore_with_config : Option ImageConfig → String → String
unfolding restore_image_of_config
restore_with_config none version = tagged "frappe/erpnext" version
restore_with_config (some c) version =
    if str_eq c.repository ""
    then tagged "frappe/erpnext" version
    else restore_image_of_config c version

-- The image of restore jobs.
unfoldable pub get_restore_image : BenchSpec → String
unfolding restore_with_config
get_restore_image spec = restore_with_config spec.image_config spec.frappe_version

-- `getBenchImage` with the ConfigMap that `getOperatorConfig` reads.
unfoldable pub bench_image : Bench → M String
bench_image bench = do
  config ← ask (λ api h.
      api.get_config_map h
        (record { name = "frappe-operator-config"; namespace = "frappe-operator-system" }))
  pure (get_bench_image config bench.spec)
