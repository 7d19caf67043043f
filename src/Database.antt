-- ===== src/Database.antt =====
-- The database configuration of a site and the choice of its provider: `resolveDBConfig` and
-- `getMariaDBRootCredentials` of controllers/site_lifecycle.go, and `NewProvider` of
-- controllers/database/provider.go.
pub mod MariaDbProvider
pub mod External
pub mod SqliteProvider
pub mod PostgresProvider
pub mod Guarded
pub mod RootCredentials
pub mod Config
mod Examples
use Prim.Native.String.{◌++◌}
use frappe_operator.Common.{
  String, Bool, true, false, Option, none, some, List, [], ◌∷◌, str_eq, if◌then◌else◌, or_else,
  is_some, deref_or,
}
use frappe_operator.Types.{NamespacedName, DatabaseConfig, SiteSpec, Site, BenchSpec}
use frappe_operator.Kube.{
  Err, plain, wrap, Got, got, failed, Secret, MariaDb, Api, M, pure, raise, ◌>>=◌, ask, lookup,
  is_not_found,
}

-- `if s == "" { s = t }`
abbrev pub text_or : String → String → String
text_or s t = if str_eq s "" then t else s

merged : DatabaseConfig → Option DatabaseConfig → DatabaseConfig
merged c none = record c { provider = text_or c.provider "mariadb" }
merged c (some b) = record {
  provider = text_or c.provider b.provider;
  mode = text_or c.mode b.mode;
  mariadb_ref = or_else c.mariadb_ref b.mariadb_ref;
  postgres_ref = or_else c.postgres_ref b.postgres_ref;
  storage_size = or_else c.storage_size b.storage_size;
  resources = or_else c.resources b.resources;
  host = text_or c.host b.host;
  port = text_or c.port b.port;
  image = c.image;
  connection_secret_ref = or_else c.connection_secret_ref b.connection_secret_ref;
}

unfoldable pub resolve_db_config : SiteSpec → BenchSpec → DatabaseConfig
unfolding merged
resolve_db_config site bench = merged site.db_config bench.db_config

pub data Provider : Type 0 where
  mariadb sqlite external : Provider

abbrev pub provider_type : DatabaseConfig → String
provider_type c =
    if str_eq c.provider ""
    then if is_some c.connection_secret_ref then "external" else "mariadb"
    else c.provider

provider_named : String → Got Provider
provider_named t =
    if str_eq t "mariadb"
    then got mariadb
    else if str_eq t "postgres"
    then failed (plain "PostgreSQL provider not yet implemented - planned for v1.1.0")
    else if str_eq t "sqlite"
    then got sqlite
    else if str_eq t "external"
    then got external
    else failed (
        plain (
          "unsupported database provider: "
          ++ (t ++ " (supported: mariadb, postgres, sqlite, external)")))

-- The external provider is wrapped in a new circuit breaker at each call.
unfoldable pub new_provider : DatabaseConfig → Got Provider
unfolding provider_named
new_provider c = provider_named (provider_type c)

-- An empty namespace stands for the site's.
abbrev pub in_namespace : Site → NamespacedName → NamespacedName
in_namespace site r = record { name = r.name; namespace = text_or r.namespace site.namespace }

-- An object in the site's namespace named after the site.
abbrev pub own_key : Site → String → NamespacedName
own_key site suffix = record { name = site.name ++ suffix; namespace = site.namespace }

-- The value of a key of a secret that was read, with the errors of the two ways to fail.
root_password : (Err → Err) → Err → Option String → M (String × String)
root_password f missing none = raise missing
root_password f missing (some password) = pure ("root", password)

from_secret : (Err → Err) → Err → String → Got Secret → M (String × String)
unfolding root_password lookup
from_secret f missing key (failed e) = raise (f e)
from_secret f missing key (got s) = root_password f missing (lookup key s.contents)

dedicated_credentials : Site → M (String × String)
unfolding from_secret
dedicated_credentials site = do
  let name = site.name ++ "-mariadb-root"
  secret ← ask (λ api h. api.get_secret h (own_key site "-mariadb-root"))
  from_secret (wrap ("failed to get dedicated MariaDB root secret " ++ (name ++ ": ")))
      (plain ("password key not found in secret " ++ name)) "password" secret

-- The shared MariaDB: `frappe-mariadb` in the site's namespace, or the one referred to.
unfoldable pub shared_key : Site → Option NamespacedName → NamespacedName
shared_key site none = record { name = "frappe-mariadb"; namespace = site.namespace }
shared_key site (some r) = in_namespace site r

shared_secret : NamespacedName → Got MariaDb → M (String × String)
unfolding from_secret
shared_secret key (failed e) = raise e
shared_secret key (got m) = do
  let secret_key = deref_or m.root_secret_key "password"
  secret ←
      ask (λ api h.
        api.get_secret h (record { name = m.root_secret_name; namespace = key.namespace }))
  from_secret (wrap ("failed to get MariaDB root secret " ++ (m.root_secret_name ++ ": ")))
      (plain ("key " ++ (secret_key ++ (" not found in secret " ++ m.root_secret_name)))) secret_key
      secret

shared_credentials : Site → M (String × String)
unfolding shared_key shared_secret
shared_credentials site = do
  let key = shared_key site site.spec.db_config.mariadb_ref
  found ← ask (λ api h. api.get_mariadb h key)
  shared_secret key found

unfoldable pub get_mariadb_root_credentials : Site → M (String × String)
unfolding dedicated_credentials shared_credentials
get_mariadb_root_credentials site =
    let mode = site.spec.db_config.mode in
    if str_eq mode "dedicated"
    then dedicated_credentials site
    else if str_eq mode "shared"
    then shared_credentials site
    else raise (plain ("unsupported database mode: " ++ mode))
