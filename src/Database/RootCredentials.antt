-- ===== src/Database/RootCredentials.antt =====
-- Looking for the root credentials of a server, and when that ends with a not-found error.
use Prim.Native.String.{◌++◌}
use mathlib.Core.Bool.{false≢true}
use frappe_operator.Common.{
  ◌⊎◌, inl, inr, true, Bool-cases, Option-cases, str_eq, eq_iff, Option, none, some, String, ◌≡◌,
  refl,
}
use frappe_operator.Types.{NamespacedName, Site}
use frappe_operator.Kube.{
  Err, plain, wrap, lookup, is_not_found, Result, ok, panic, Got, got, failed, err, Secret, MariaDb,
  History, Api, M, ◌>>=◌,
}
use frappe_operator.Kube.Traces.{Emits, emit_rules}
use frappe_operator.Database.{
  in_namespace, shared_key, own_key, root_password, from_secret, dedicated_credentials,
  shared_secret, shared_credentials, get_mariadb_root_credentials,
}

abbrev Silent : {A : Type 0} → M A → Type 0
Silent m = Emits (λ c. ⊥) m

root_password-Silent : (f : Err → Err) (e : Err) (o : Option String) → Silent (root_password f e o)
unfolding root_password
root_password-Silent f e none = search emit_rules
root_password-Silent f e (some p) = search emit_rules

from_secret-Silent :
    (f : Err → Err) (e : Err) (key : String) (g : Got Secret) → Silent (from_secret f e key g)
unfolding from_secret
from_secret-Silent f e key (failed x) = search emit_rules
from_secret-Silent f e key (got s) = root_password-Silent f e _

shared_secret-Silent : (k : NamespacedName) (g : Got MariaDb) → Silent (shared_secret k g)
unfolding shared_secret
shared_secret-Silent k (failed e) = search emit_rules
shared_secret-Silent k (got m) = search (emit_rules, from_secret-Silent)

pub get_mariadb_root_credentials-Silent : (site : Site) → Silent (get_mariadb_root_credentials site)
unfolding get_mariadb_root_credentials dedicated_credentials shared_credentials
get_mariadb_root_credentials-Silent site =
    search (emit_rules, from_secret-Silent, shared_secret-Silent) depth 9

-- A dedicated site is looked up by a secret of its own; the error of a failing read is wrapped.
pub get_mariadb_root_credentials-dedicated :
    (site : Site) (e : Err) (api : Api) (h : History)
    → site.spec.db_config.mode ≡ "dedicated"
    → api.get_secret h (own_key site "-mariadb-root") ≡ failed e
    → get_mariadb_root_credentials site api h ≡ (
      err (
          wrap
            ("failed to get dedicated MariaDB root secret "
              ++ ((site.name ++ "-mariadb-root") ++ ": "))
            e),
      h,
    )
unfolding get_mariadb_root_credentials dedicated_credentials from_secret ◌>>=◌
get_mariadb_root_credentials-dedicated site e api h m s = rw (m, s) refl

abbrev pub NotFound : {A : Type 0} → Got A → Type 0
NotFound (got a) = ⊥
NotFound (failed e) = is_not_found e ≡ true

abbrev pub NotFoundResult : {A : Type 0} → Result A → Type 0
NotFoundResult (ok a) = ⊥
NotFoundResult (err e) = is_not_found e ≡ true
NotFoundResult panic = ⊥

-- The shared server is not there, or it is and its root secret is not.
abbrev pub SharedMissing : Api → History → NamespacedName → Got MariaDb → Type 0
SharedMissing api h key (failed e) = is_not_found e ≡ true
SharedMissing api h key (got m) =
    NotFound (api.get_secret h (record { name = m.root_secret_name; namespace = key.namespace }))

abbrev pub server_key : Site → Option NamespacedName → NamespacedName
server_key site none = record { name = "frappe-mariadb"; namespace = site.namespace }
server_key site (some r) = in_namespace site r

-- Something that the root password is read from is not there: the root secret of a dedicated site, or
-- the MariaDB of a shared one or that MariaDB's root secret.
abbrev pub CredentialsMissing : Site → Api → History → Type 0
CredentialsMissing site api h =
    let key = server_key site site.spec.db_config.mariadb_ref in
    ((site.spec.db_config.mode ≡ "dedicated")
      × NotFound (api.get_secret h (own_key site "-mariadb-root")))
    ⊎ ((site.spec.db_config.mode ≡ "shared") × SharedMissing api h key (api.get_mariadb h key))

from_secret-missing :
    (t u key : String) (g : Got Secret) (api : Api) (h : History)
    → NotFoundResult (from_secret (wrap t) (plain u) key g api h).0
    → NotFound g
unfolding from_secret root_password ◌>>=◌
from_secret-missing t u key (failed e) api h n = n
from_secret-missing t u key (got s) api h n = elim (Option-cases (lookup key s.contents)) [
  | inl q ↦ absurd (false≢true (rw q at n))
  | inr (x, q) ↦ absurd (rw q at n)
]

shared_secret-missing :
    (key : NamespacedName) (g : Got MariaDb) (api : Api) (h : History)
    → NotFoundResult (shared_secret key g api h).0
    → SharedMissing api h key g
unfolding shared_secret ◌>>=◌
shared_secret-missing key (failed e) api h n = n
shared_secret-missing key (got m) api h n = from_secret-missing _ _ _ _ api h n

shared_credentials-missing :
    (site : Site) (o : Option NamespacedName) (api : Api) (h : History)
    → NotFoundResult
        (shared_secret (shared_key site o) (api.get_mariadb h (shared_key site o)) api h).0
    → SharedMissing api h (server_key site o) (api.get_mariadb h (server_key site o))
unfolding shared_key
shared_credentials-missing site none api h n = shared_secret-missing _ _ api h n
shared_credentials-missing site (some r) api h n = shared_secret-missing _ _ api h n

pub get_mariadb_root_credentials-missing :
    (site : Site) (api : Api) (h : History)
    → NotFoundResult (get_mariadb_root_credentials site api h).0
    → CredentialsMissing site api h
unfolding get_mariadb_root_credentials dedicated_credentials shared_credentials ◌>>=◌
get_mariadb_root_credentials-missing site api h n =
    let mode = site.spec.db_config.mode in
    elim (Bool-cases (str_eq mode "dedicated")) [
      | inl d ↦ inl ((eq_iff mode "dedicated").0 d, from_secret-missing _ _ _ _ api h (rw d at n))
      | inr d ↦ elim (Bool-cases (str_eq mode "shared")) [
        | inl s ↦ inr (
          (eq_iff mode "shared").0 s,
          shared_credentials-missing site site.spec.db_config.mariadb_ref api h (rw (d, s) at n),
        )
        | inr s ↦ absurd (false≢true (rw (d, s) at n))
      ]
    ]
