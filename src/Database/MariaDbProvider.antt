-- ===== src/Database/MariaDbProvider.antt =====
-- controllers/database/mariadb_provider.go, with the names of `DbName`.
pub mod Writes
pub mod Reads
use Prim.Native.String.{◌++◌}
use frappe_operator.Common.{
  String, Bool, true, false, ◌&&◌, not, Option, none, some, List, [], ◌∷◌, str_eq, if◌then◌else◌,
  deref_or,
}
use frappe_operator.Types.{NamespacedName, DatabaseConfig, Site}
use frappe_operator.Kube.{
  Err, plain, wrap, Got, got, failed, Secret, CustomResource, mariadb_kind, database_kind,
  user_kind, grant_kind, create_secret, create_mariadb, create_database_cr, create_user_cr,
  create_grant_cr, Call, Api, M, pure, raise, ◌>>=◌, ◌>>◌, ask, attempt, check, perform, set_owner,
  try, lookup, is_not_found, is_already_exists,
}
use frappe_operator.DbName.{generate_db_name, generate_db_user}
use frappe_operator.Database.{text_or, in_namespace, own_key}

pub record DatabaseInfo : Type 0 where
  pub host : String
  pub port : String
  pub name : String
  pub provider : String

pub record DatabaseCredentials : Type 0 where
  pub username : String
  pub password : String
  pub secret_name : String

abbrev same : Err → Err
same e = e

-- `if errors.IsNotFound(err) { create } else { return err }`
create_missing : M (Unit {0}) → Got CustomResource → M (Unit {0})
create_missing make (got r) = pure tt
create_missing make (failed e) = if is_not_found e then make else raise e

shared_instance : NamespacedName → Got CustomResource → M NamespacedName
shared_instance key (got r) = pure key
shared_instance key (failed e) =
    if is_not_found e
    then raise (
        plain (
          "shared MariaDB instance '"
          ++ (key.name
              ++ ("' not found in namespace '"
                  ++ (key.namespace
                      ++ "'. Please create a MariaDB CR or specify dbConfig.mariadbRef")))))
    else raise e

find_or_create_shared_mariadb : Site → M NamespacedName
unfolding shared_instance
find_or_create_shared_mariadb site = do
  let key =
      let k : NamespacedName = record { name = "frappe-mariadb"; namespace = site.namespace } in k
  found ← ask (λ api h. api.get_custom h mariadb_kind key)
  shared_instance key found

-- `if err != nil && !errors.IsAlreadyExists(err) { return err }`
unless_exists : Option Err → M (Unit {0})
unless_exists none = pure tt
unless_exists (some e) =
    if is_already_exists e
    then pure tt
    else raise (wrap "failed to create root password secret: " e)

dedicated_instance : Site → Got CustomResource → M NamespacedName
unfolding unless_exists
dedicated_instance site (got r) = pure (own_key site "-mariadb")
dedicated_instance site (failed e) = if not (is_not_found e) then raise e else do
  password ← ask (λ api h. api.random_password h 32)
  set_owner (own_key site "-mariadb-root")
  made ← attempt (create_secret (own_key site "-mariadb-root") (("password", password) ∷ []))
  unless_exists made
  set_owner (own_key site "-mariadb")
  perform (wrap "failed to create MariaDB instance: ") (
      create_mariadb (own_key site "-mariadb") (site.name ++ "-mariadb-root")
        (text_or site.spec.db_config.image "mariadb:10.11")
        (deref_or site.spec.db_config.storage_size "10Gi"))
  pure (own_key site "-mariadb")

create_dedicated_mariadb : Site → M NamespacedName
unfolding dedicated_instance
create_dedicated_mariadb site = do
  found ← ask (λ api h. api.get_custom h mariadb_kind (own_key site "-mariadb"))
  dedicated_instance site found

instance_of_mode : Site → M NamespacedName
unfolding find_or_create_shared_mariadb create_dedicated_mariadb
instance_of_mode site =
    let mode = text_or site.spec.db_config.mode "shared" in
    if str_eq mode "shared"
    then find_or_create_shared_mariadb site
    else if str_eq mode "dedicated"
    then create_dedicated_mariadb site
    else raise (plain ("unsupported database mode: " ++ mode))

instance_of : Site → Option NamespacedName → M NamespacedName
unfolding instance_of_mode
instance_of site (some r) = pure (in_namespace site r)
instance_of site none = instance_of_mode site

unfoldable pub get_mariadb_instance : Site → M NamespacedName
unfolding instance_of
get_mariadb_instance site = instance_of site site.spec.db_config.mariadb_ref

ensure_database_cr : Site → NamespacedName → String → M (Unit {0})
unfolding create_missing
ensure_database_cr site mariadb db_name = do
  let key = own_key site "-db"
  set_owner key
  found ← ask (λ api h. api.get_custom h database_kind key)
  create_missing (perform same (create_database_cr key mariadb db_name)) found

create_password : Site → Got Secret → M (Unit {0})
create_password site (got s) = pure tt
create_password site (failed e) = if not (is_not_found e) then raise e else do
  password ← ask (λ api h. api.random_password h 16)
  set_owner (own_key site "-db-password")
  perform same (create_secret (own_key site "-db-password") (("password", password) ∷ []))

ensure_user_cr : Site → NamespacedName → String → M String
unfolding create_missing create_password
ensure_user_cr site mariadb db_user = do
  let key = own_key site "-user"
  secret ← ask (λ api h. api.get_secret h (own_key site "-db-password"))
  create_password site secret
  set_owner key
  found ← ask (λ api h. api.get_custom h user_kind key)
  create_missing (perform same (create_user_cr key mariadb db_user (site.name ++ "-db-password")))
      found
  pure (site.name ++ "-db-password")

ensure_grant_cr : Site → NamespacedName → String → String → M (Unit {0})
unfolding create_missing
ensure_grant_cr site mariadb db_name db_user = do
  let key = own_key site "-grant"
  set_owner key
  found ← ask (λ api h. api.get_custom h grant_kind key)
  create_missing (perform same (create_grant_cr key mariadb db_name db_user)) found

-- `fmt.Errorf(text + "%w", err)` of a step that fails.
abbrev pub reraise : {A : Type 0} → String → Got A → M A
reraise text (got a) = pure a
reraise text (failed e) = raise (wrap text e)

abbrev pub annotate : {A : Type 0} → String → M A → M A
annotate text m = try m >>= reraise text

unfoldable pub ensure_database : Site → M DatabaseInfo
unfolding get_mariadb_instance ensure_database_cr ensure_user_cr ensure_grant_cr
ensure_database site = do
  let db_name = generate_db_name site.namespace site.name site.spec.site_name
  let db_user = generate_db_user site.namespace site.name site.spec.site_name
  mariadb ← get_mariadb_instance site
  annotate "failed to ensure Database CR: " (ensure_database_cr site mariadb db_name)
  secret ← annotate "failed to ensure User CR: " (ensure_user_cr site mariadb db_user)
  annotate "failed to ensure Grant CR: " (ensure_grant_cr site mariadb db_name db_user)
  pure (record {
    host = mariadb.name ++ ("." ++ (mariadb.namespace ++ ".svc.cluster.local"));
    port = "3306";
    name = db_name;
    provider = "mariadb";
  })

has_ready : List (String × String) → Bool
has_ready [] = false
has_ready ((type, status) ∷ rest) =
    let more = has_ready rest in if str_eq type "Ready" && str_eq status "True" then true else more

ready_among : Option (List (String × String)) → Bool
unfolding has_ready
ready_among none = false
ready_among (some cs) = has_ready cs

unfoldable pub is_resource_ready : CustomResource → Bool
unfolding ready_among
is_resource_ready r = ready_among r.conditions

-- One of the three tests of `IsReady`, and what follows if it passes.
ready_then : M Bool → Got CustomResource → M Bool
unfolding is_resource_ready
ready_then rest (failed e) = if is_not_found e then pure false else raise e
ready_then rest (got r) = if is_resource_ready r then rest else pure false

unfoldable pub is_ready : Site → M Bool
unfolding ready_then
is_ready site = do
  database ← ask (λ api h. api.get_custom h database_kind (own_key site "-db"))
  ready_then
      (do
        user ← ask (λ api h. api.get_custom h user_kind (own_key site "-user"))
        ready_then
            (do
              grant ← ask (λ api h. api.get_custom h grant_kind (own_key site "-grant"))
              ready_then (pure true) grant)
            user)
      database

credentials_of : String → String → Secret → Option String → M DatabaseCredentials
credentials_of user key s none =
    raise (plain ("password key '" ++ (key ++ "' not found in secret")))
credentials_of user key s (some password) =
    pure (record { username = user; password = password; secret_name = s.name })

credentials_from : String → String → Got Secret → M DatabaseCredentials
unfolding credentials_of lookup
credentials_from user key (failed e) = raise (wrap "failed to get password secret: " e)
credentials_from user key (got s) = credentials_of user key s (lookup key s.contents)

user_credentials : Site → Got CustomResource → M DatabaseCredentials
unfolding credentials_from
user_credentials site (failed e) = raise (wrap "failed to get User CR: " e)
user_credentials site (got r) =
    if str_eq r.user_name ""
    then raise (plain "failed to get username from User CR: %!w(<nil>)")
    else if str_eq r.password_secret_name ""
    then raise (plain "failed to get password secret name from User CR: %!w(<nil>)")
    else do
      secret ← ask (λ api h.
          api.get_secret h (record { name = r.password_secret_name; namespace = site.namespace }))
      credentials_from r.user_name (text_or r.password_secret_key "password") secret

unfoldable pub get_credentials : Site → M DatabaseCredentials
unfolding user_credentials
get_credentials site = do
  user ← ask (λ api h. api.get_custom h user_kind (own_key site "-user"))
  user_credentials site user
