-- ===== src/Fixtures.antt =====
-- Resources and a client that the tests of several components share.
use frappe_operator.Common.{false, none, some, [], ◌∷◌}
use frappe_operator.Types.{
  NamespacedName, DatabaseConfig, SiteSpec, SiteStatus, unset, Site, BenchSpec, BenchStatus, Bench,
}
use frappe_operator.Kube.{Err, status_error, not_found, got, failed, Api}

abbrev pub server : NamespacedName
server = record { name = "db"; namespace = "data" }

abbrev pub dedicated_config : DatabaseConfig
dedicated_config = record {
  provider = "";
  mode = "dedicated";
  mariadb_ref = some server;
  postgres_ref = none;
  storage_size = none;
  resources = none;
  host = "";
  port = "";
  image = "";
  connection_secret_ref = none;
}

abbrev pub prod_bench_ref : NamespacedName
prod_bench_ref = record { name = "prod"; namespace = "" }

abbrev pub shop_spec : SiteSpec
shop_spec = record {
  bench_ref = some prod_bench_ref;
  site_name = "shop.example.com";
  admin_password_secret_ref = none;
  db_config = dedicated_config;
  domain = "";
  tls = record { enabled = false; secret_name = ""; issuer = "" };
  ingress_class_name = "";
  ingress = none;
  route_config = none;
  apps = "erpnext" ∷ [];
}

abbrev pub new_status : SiteStatus
new_status = record {
  phase = "";
  database_name = "";
  database_credentials_secret = "";
  site_url = "";
  resolved_domain = "";
  domain_source = "";
  installed_apps = [];
  app_installation_status = unset;
  observed_generation = 0;
}

abbrev pub shop : Site
shop = record {
  name = "shop";
  namespace = "web";
  generation = 1;
  deleting = false;
  finalizers = [];
  annotations = [];
  spec = shop_spec;
  status = new_status;
}

abbrev pub prod_spec : BenchSpec
prod_spec = record {
  frappe_version = "v15";
  apps =
      record {
        name = "erpnext";
        source = "image";
        version = "";
        org = "";
        git_url = "";
        git_branch = "";
      }
      ∷ [];
  apps_json = "";
  image_config = some (record { repository = "acme/erp"; tag = "" });
  component_replicas = none;
  storage_class_name = "";
  storage_size = "10Gi";
  db_config = none;
  domain_config = none;
  worker_autoscaling = none;
  component_resources = none;
  redis_config = none;
  security = none;
  pod_config = none;
  git_config = none;
  fpm_config = none;
}

abbrev pub ready_status : BenchStatus
ready_status = record {
  phase = "Ready";
  installed_apps = [];
  git_enabled = false;
  fpm_repositories = [];
  observed_generation = 1;
  worker_scaling = [];
}

abbrev pub prod : Bench
prod = record {
  name = "prod";
  namespace = "web";
  generation = 1;
  deleting = false;
  finalizers = [];
  annotations = [];
  spec = prod_spec;
  status = ready_status;
}

abbrev pub missing : Err
missing = status_error not_found "not found"

-- A cluster with nothing in it, where every write succeeds.
abbrev pub empty_cluster : Api
empty_cluster = record {
  get_secret = λ h k. failed missing;
  get_job = λ h k. failed missing;
  get_bench = λ h k. failed missing;
  get_mariadb = λ h k. failed missing;
  get_config_map = λ h k. failed missing;
  get_custom = λ h c k. failed missing;
  get_site = λ h k. failed missing;
  last_pod = λ h k. none;
  get_storage_class = λ h n. failed missing;
  list_storage_classes = λ h. got [];
  get_backup = λ h k. failed missing;
  get_restore = λ h k. failed missing;
  get_deployed = λ h c k. failed missing;
  list_scaled_objects = λ h. failed missing;
  namespace_annotations = λ h n. failed missing;
  same_cron_job = λ h k s. failed missing;
  sites_in = λ h n. got [];
  now = λ h. 1;
  exists = λ h c k. failed missing;
  random_password = λ h n. "secret";
  write = λ h c. none;
  set_controller_reference = λ k. none;
}

-- The same with the bench.
abbrev pub bench_cluster : Api
bench_cluster = record empty_cluster { get_bench = λ h k. got prod }

-- With a deletion job that has succeeded, too.
abbrev pub dropped_cluster : Api
dropped_cluster = record bench_cluster {
  get_job = λ h k. got (record { succeeded = 1; failures = 0 });
}
