-- ===== src/Site/Secrets.antt =====
-- The secrets of a site's initialisation: `ensureAdminPassword` and `ensureInitSecrets` of
-- controllers/site_lifecycle.go.
pub mod Writes
pub mod Apps
use Prim.Native.Char.{Char, code}
use Prim.Native.String.{◌++◌}
use frappe_operator.Common.{
  ℕ, String, Bool, true, false, ◌&&◌, ◌||◌, Option, none, some, List, [], ◌∷◌, leb, ◌==◌,
  if◌then◌else◌, deref_or,
}
use frappe_operator.Types.{NamespacedName, Site, Bench}
use frappe_operator.Kube.{
  Err, wrap, Got, got, failed, Secret, create_secret, update_secret, Api, M, pure, raise, ◌>>=◌,
  ◌>>◌, ask, attempt, check, perform, set_owner, lookup, is_not_found,
}
use frappe_operator.Database.{text_or, in_namespace, own_key}
use frappe_operator.Database.MariaDbProvider.{DatabaseInfo, DatabaseCredentials}

-- `string(secret.Data["password"])`: a missing key gives the empty text.
password_of : Secret → String
unfolding lookup
password_of s = deref_or (lookup "password" s.contents) ""

provided_password : Got Secret → M String
unfolding password_of
provided_password (failed e) = raise (wrap "failed to get admin password secret: " e)
provided_password (got s) = pure (password_of s)

generated_password : Site → Got Secret → M String
unfolding password_of
generated_password site (got s) = pure (password_of s)
generated_password site (failed e) =
    if is_not_found e
    then (do
      password ← ask (λ api h. api.random_password h 16)
      set_owner (own_key site "-admin")
      perform (wrap "failed to create admin password secret: ")
          (create_secret (own_key site "-admin") (("password", password) ∷ []))
      pure password)
    else raise (wrap "failed to check for generated secret: " e)

admin_password : Site → Option NamespacedName → M String
unfolding provided_password generated_password
admin_password site (some r) = do
  secret ← ask (λ api h. api.get_secret h (in_namespace site r))
  provided_password secret
admin_password site none = do
  secret ← ask (λ api h. api.get_secret h (own_key site "-admin"))
  generated_password site secret

unfoldable pub ensure_admin_password : Site → M String
unfolding admin_password
ensure_admin_password site = admin_password site site.spec.admin_password_secret_ref

abbrev pub is_app_char : ℕ → Bool
is_app_char c =
    (leb b'a' c && leb c b'z')
    || ((leb b'A' c && leb c b'Z') || ((leb b'0' c && leb c b'9') || (c == b'_' || c == b'-')))

unfoldable pub is_valid_app : String → Bool
is_valid_app String.[] = true
is_valid_app (String.◌∷◌ c s) = is_app_char (code c) && is_valid_app s

unfoldable pub valid_apps : List String → List String
unfolding is_valid_app
valid_apps [] = []
valid_apps (app ∷ apps) =
    let rest = valid_apps apps in if is_valid_app app then app ∷ rest else rest

-- `strings.Join(apps, " ")`
unfoldable pub join : List String → String
join [] = ""
join (app ∷ []) = app
join (app ∷ apps) = app ++ (" " ++ join apps)

unfoldable pub apps_to_install : List String → String
unfolding valid_apps join
apps_to_install apps = join (valid_apps apps)

-- The contents for known information and credentials of the database.
unfoldable pub init_data :
    Site → Bench → String → DatabaseInfo → DatabaseCredentials → String → List (String × String)
init_data site bench domain info creds password =
    ("site_name", site.spec.site_name)
    ∷ ("domain", domain)
    ∷ ("admin_password", password)
    ∷ ("bench_name", bench.name)
    ∷ ("db_provider", text_or site.spec.db_config.provider "mariadb")
    ∷ ("apps_to_install", apps_to_install site.spec.apps)
    ∷ ("db_host", info.host)
    ∷ ("db_port", info.port)
    ∷ ("db_name", info.name)
    ∷ ("db_user", creds.username)
    ∷ ("db_password", creds.password)
    ∷ []

write_secret : NamespacedName → List (String × String) → Got Secret → M (Unit {0})
write_secret key contents (got s) = perform (λ e. e) (update_secret key contents)
write_secret key contents (failed e) =
    if is_not_found e then perform (λ e. e) (create_secret key contents) else raise e

-- `dbInfo` and `dbCreds` are not nil where the reconciler calls this.
unfoldable pub ensure_init_secrets :
    Site → Bench → String → DatabaseInfo → DatabaseCredentials → String → M (Unit {0})
unfolding write_secret
ensure_init_secrets site bench domain info creds password = do
  let key = own_key site "-init-secrets"
  set_owner key
  existing ← ask (λ api h. api.get_secret h key)
  write_secret key (init_data site bench domain info creds password) existing
