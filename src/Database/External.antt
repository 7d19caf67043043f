-- ===== src/Database/External.antt =====
-- controllers/database/external_provider.go: a database that the operator does not run.
use Prim.Native.String.{◌++◌}
use frappe_operator.Common.{
  ◌≢◌, refl, String, Bool, true, ◌&&◌, not, Option, none, some, str_eq, eq_iff, if◌then◌else◌,
  deref_or, str_ne, Bool-cases, inl, inr, arith,
}
use frappe_operator.Types.{NamespacedName, Site}
use frappe_operator.Kube.{
  plain, wrap, Got, got, failed, Result, ok, err, panic, Secret, History, Api, M, pure, raise,
  ◌>>=◌, ask, lookup,
}
use frappe_operator.Kube.Traces.{Emits, emit_rules}
use frappe_operator.Database.{text_or}
use frappe_operator.Database.MariaDbProvider.{DatabaseInfo, DatabaseCredentials}

-- The connection secret is looked up in the site's namespace, whatever the reference says.
secret_of : Site → NamespacedName → M (Got Secret)
secret_of site r =
    ask (λ api h. api.get_secret h (record { name = r.name; namespace = site.namespace }))

-- What is known of the connection: host, port, database and type.
pub record Known : Type 0 where
  pub host : String
  pub port : String
  pub name : String
  pub kind : String

known_from_spec : Site → Known
known_from_spec site = record {
  host = site.spec.db_config.host;
  port = site.spec.db_config.port;
  name = site.spec.site_name;
  kind = "mariadb";
}

-- A key that is there overrides, even with `""`; a secret that cannot be read changes nothing.
known_with : Known → Got Secret → Known
unfolding lookup
known_with k (failed e) = k
known_with k (got s) = record {
  host = deref_or (lookup "host" s.contents) k.host;
  port = deref_or (lookup "port" s.contents) k.port;
  name = deref_or (lookup "database" s.contents) k.name;
  kind = deref_or (lookup "type" s.contents) k.kind;
}

kind_of : Site → String → String
kind_of site kind =
    let p = site.spec.db_config.provider in
    if str_eq kind "mariadb" && (not (str_eq p "external") && not (str_eq p "")) then p else kind

info_of : Site → Known → M DatabaseInfo
unfolding kind_of
info_of site k =
    if str_eq k.host ""
    then raise (plain "database host is required (either in spec or secret)")
    else pure (record {
      host = k.host;
      port = text_or k.port "3306";
      name = k.name;
      provider = kind_of site k.kind;
    })

ensure_with : Site → Option NamespacedName → M DatabaseInfo
unfolding info_of known_with known_from_spec secret_of
ensure_with site none = info_of site (known_from_spec site)
ensure_with site (some r) = do
  secret ← secret_of site r
  info_of site (known_with (known_from_spec site) secret)

unfoldable pub ensure_database : Site → M DatabaseInfo
unfolding ensure_with
ensure_database site = ensure_with site site.spec.db_config.connection_secret_ref

ready_if : Got Secret → M Bool
ready_if (failed e) = raise (wrap "failed to get database secret: " e)
ready_if (got s) = pure true

ready_with : Site → Option NamespacedName → M Bool
unfolding secret_of ready_if
ready_with site none =
    if str_eq site.spec.db_config.host ""
    then raise (plain "connectionSecretRef or host is required for external database provider")
    else pure true
ready_with site (some r) = do secret ← secret_of site r; ready_if secret

unfoldable pub is_ready : Site → M Bool
unfolding ready_with
is_ready site = ready_with site site.spec.db_config.connection_secret_ref

password_in : Secret → String → Option String → M DatabaseCredentials
password_in s user none =
    raise (plain ("password not found in database secret '" ++ (s.name ++ "'")))
password_in s user (some p) = pure (record { username = user; password = p; secret_name = s.name })

username_in : Secret → Option String → M DatabaseCredentials
unfolding password_in lookup
username_in s none = raise (plain ("username not found in database secret '" ++ (s.name ++ "'")))
username_in s (some user) = password_in s user (lookup "password" s.contents)

credentials_in : Got Secret → M DatabaseCredentials
unfolding username_in lookup
credentials_in (failed e) = raise (wrap "failed to get database secret: " e)
credentials_in (got s) = username_in s (lookup "username" s.contents)

credentials_with : Site → Option NamespacedName → M DatabaseCredentials
unfolding secret_of credentials_in
credentials_with site none =
    raise (
      plain
        "connectionSecretRef is required for external database provider to retrieve credentials")
credentials_with site (some r) = do secret ← secret_of site r; credentials_in secret

unfoldable pub get_credentials : Site → M DatabaseCredentials
unfolding credentials_with
get_credentials site = credentials_with site site.spec.db_config.connection_secret_ref

-- `Cleanup` of this provider.
unfoldable pub cleanup : Site → M (Unit {0})
cleanup site = pure tt

-- The result is one that satisfies `P`, if it is a value.
abbrev pub OkHas : {A : Type 0} → (A → Type 0) → Result A × History → Type 0
OkHas P (ok a, h) = P a
OkHas P (err e, h) = Unit
OkHas P (panic, h) = Unit

abbrev pub Complete : DatabaseInfo → Type 0
Complete i = (i.host ≢ "") × (i.port ≢ "")

text_or-ne : (s t : String) → t ≢ "" → text_or s t ≢ ""
text_or-ne s t n = elim (Bool-cases (str_eq s "")) [
  | inl e ↦ rw e n
  | inr e ↦ ground (arith, eq_iff s "")
]

info_of-Complete :
    (site : Site) (k : Known) (api : Api) (h : History) → OkHas Complete (info_of site k api h)
unfolding info_of ◌>>=◌
info_of-Complete site k api h = elim (Bool-cases (str_eq k.host "")) [
  | inl e ↦ rw e tt
  | inr e ↦
      rw e (ground (arith, eq_iff k.host ""), text_or-ne k.port "3306" (str_ne "3306" "" refl))
]

ensure_with-Complete :
    (site : Site) (r : Option NamespacedName) (api : Api) (h : History)
    → OkHas Complete (ensure_with site r api h)
unfolding ensure_with secret_of ◌>>=◌
ensure_with-Complete site none api h = info_of-Complete site (known_from_spec site) api h
ensure_with-Complete site (some r) api h =
    info_of-Complete site
      (known_with (known_from_spec site)
        (api.get_secret h (record { name = r.name; namespace = site.namespace })))
      api h

-- When the external provider returns a connection, its host and its port are not empty.
pub ensure_database-Complete :
    (site : Site) (api : Api) (h : History) → OkHas Complete (ensure_database site api h)
unfolding ensure_database
ensure_database-Complete site api h =
    ensure_with-Complete site site.spec.db_config.connection_secret_ref api h

abbrev pub Silent : {A : Type 0} → M A → Type 0
Silent m = Emits (λ c. ⊥) m

info_of-Silent : (site : Site) (k : Known) → Silent (info_of site k)
unfolding info_of
info_of-Silent site k = search emit_rules

ensure_with-Silent : (site : Site) (r : Option NamespacedName) → Silent (ensure_with site r)
unfolding ensure_with secret_of
ensure_with-Silent site none = info_of-Silent site (known_from_spec site)
ensure_with-Silent site (some r) = search (emit_rules, info_of-Silent)

ready_with-Silent : (site : Site) (r : Option NamespacedName) → Silent (ready_with site r)
unfolding ready_with secret_of ready_if
ready_with-Silent site none = search emit_rules
ready_with-Silent site (some r) = search (emit_rules, ready_if-Silent)
  where
    ready_if-Silent : (g : Got Secret) → Silent (ready_if g)
    ready_if-Silent (failed e) = search emit_rules
    ready_if-Silent (got s) = search emit_rules

credentials_with-Silent :
    (site : Site) (r : Option NamespacedName) → Silent (credentials_with site r)
unfolding credentials_with secret_of credentials_in username_in password_in
credentials_with-Silent site none = search emit_rules
credentials_with-Silent site (some r) = search (emit_rules, read)
  where
    password : (s : Secret) (user : String) (p : Option String) → Silent (password_in s user p)
    password s user none = search emit_rules
    password s user (some p) = search emit_rules

    username : (s : Secret) (user : Option String) → Silent (username_in s user)
    username s none = search emit_rules
    username s (some user) = password s user _

    read : (g : Got Secret) → Silent (credentials_in g)
    read (failed e) = search emit_rules
    read (got s) = username s _

-- The external provider never writes to the cluster, whichever of its operations is called.
pub external-Silent :
    (site : Site)
    → Silent (ensure_database site)
      × Silent (is_ready site)
      × Silent (get_credentials site)
      × Silent (cleanup site)
unfolding ensure_database is_ready get_credentials cleanup
external-Silent site = (
  ensure_with-Silent site _,
  ready_with-Silent site _,
  credentials_with-Silent site _,
  search emit_rules,
)
