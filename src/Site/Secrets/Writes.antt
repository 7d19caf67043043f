-- ===== src/Site/Secrets/Writes.antt =====
-- What the secrets of a site's initialisation write.
use frappe_operator.Common.{String, Option, none, some, List}
use frappe_operator.Types.{NamespacedName, Site, Bench}
use frappe_operator.Kube.{Got, got, failed, Secret, Call, create_secret, update_secret}
use frappe_operator.Kube.Traces.{Emits, emit_rules}
use frappe_operator.Database.{own_key}
use frappe_operator.Database.MariaDbProvider.{DatabaseInfo, DatabaseCredentials}
use frappe_operator.Site.Secrets.{
  provided_password, generated_password, admin_password, ensure_admin_password, write_secret,
  ensure_init_secrets,
}

module _ {P : Call → Type 0} (site : Site) where
  generated_password-Emits :
      ((d : List (String × String)) → P (create_secret (own_key site "-admin") d))
      → (g : Got Secret) → Emits P (generated_password site g)
  unfolding generated_password
  generated_password-Emits p (got s) = search emit_rules
  generated_password-Emits p (failed e) = search emit_rules depth 12

  provided_password-Emits : (g : Got Secret) → Emits P (provided_password g)
  unfolding provided_password
  provided_password-Emits (got s) = search emit_rules
  provided_password-Emits (failed e) = search emit_rules

  admin_password-Emits :
      ((d : List (String × String)) → P (create_secret (own_key site "-admin") d))
      → (o : Option NamespacedName) → Emits P (admin_password site o)
  unfolding admin_password
  admin_password-Emits p (some r) = search (emit_rules, provided_password-Emits)
  admin_password-Emits p none = search (emit_rules, generated_password-Emits)

  pub ensure_admin_password-Emits :
      ((d : List (String × String)) → P (create_secret (own_key site "-admin") d))
      → Emits P (ensure_admin_password site)
  unfolding ensure_admin_password
  ensure_admin_password-Emits p = admin_password-Emits p site.spec.admin_password_secret_ref

  write_secret-Emits :
      (k : NamespacedName) (d : List (String × String))
      → P (create_secret k d)
      → P (update_secret k d)
      → (g : Got Secret) → Emits P (write_secret k d g)
  unfolding write_secret
  write_secret-Emits k d p q (got s) = search emit_rules
  write_secret-Emits k d p q (failed e) = search emit_rules

  pub ensure_init_secrets-Emits :
      (bench : Bench) (domain : String) (info : DatabaseInfo) (creds : DatabaseCredentials)
      (password : String)
      → ((d : List (String × String)) → P (create_secret (own_key site "-init-secrets") d))
      → ((d : List (String × String)) → P (update_secret (own_key site "-init-secrets") d))
      → Emits P (ensure_init_secrets site bench domain info creds password)
  unfolding ensure_init_secrets
  ensure_init_secrets-Emits bench domain info creds password p q =
      search (emit_rules, write_secret-Emits) depth 9
