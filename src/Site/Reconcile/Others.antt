-- ===== src/Site/Reconcile/Others.antt =====
-- The steps of a reconciliation that write neither the status nor the finalizers.
use frappe_operator.Common.{inl, inr, String, Bool}
use frappe_operator.Types.{Site, Bench}
use frappe_operator.Kube.{Call, M}
use frappe_operator.Kube.Traces.{Emits, Emits-mono, emit_rules}
use frappe_operator.Kube.SiteCalls.{IsOther, IsOther-cases}
use frappe_operator.Database.{mariadb, sqlite, external, Provider}
use frappe_operator.Database.MariaDbProvider.{DatabaseInfo, DatabaseCredentials}
use frappe_operator.Database.MariaDbProvider.Writes.{CreatesIn, ensure_database-CreatesIn}
use frappe_operator.Database.MariaDbProvider.Reads.{is_ready-Emits, get_credentials-Emits}
use frappe_operator.Database.External.{external-Silent}
use frappe_operator.Site.{delete_site}
use frappe_operator.Site.DeletionWrites.{DeletionCall, delete_site-DeletionCall}
use frappe_operator.Site.Init.{ensure_site_initialized}
use frappe_operator.Site.Init.Writes.{InitCall, ensure_site_initialized-InitCall}
use frappe_operator.Site.Access.{ensure_access}
use frappe_operator.Site.Access.Writes.{AccessCall, ensure_access-AccessCall}
use frappe_operator.Site.Reconcile.{provider_ready, provider_ensure, provider_credentials}

abbrev pub Others : {A : Type 0} → M A → Type 0
Others m = Emits IsOther m

CreatesIn→IsOther : (ns : String) (c : Call) → CreatesIn ns c → IsOther c
CreatesIn→IsOther ns c p = elim (IsOther-cases c) [
  | inl o ↦ o
  | inr (inl (k, st, e)) ↦ absurd (rw e at p)
  | inr (inr (k, fs, e)) ↦ absurd (rw e at p)
]

DeletionCall→IsOther : (site : Site) (c : Call) → DeletionCall site c → IsOther c
DeletionCall→IsOther site c p = elim (IsOther-cases c) [
  | inl o ↦ o
  | inr (inl (k, st, e)) ↦ absurd (rw e at p)
  | inr (inr (k, fs, e)) ↦ absurd (rw e at p)
]

InitCall→IsOther : (site : Site) (c : Call) → InitCall site c → IsOther c
InitCall→IsOther site c p = elim (IsOther-cases c) [
  | inl o ↦ o
  | inr (inl (k, st, e)) ↦ absurd (rw e at p)
  | inr (inr (k, fs, e)) ↦ absurd (rw e at p)
]

AccessCall→IsOther : (site : Site) (c : Call) → AccessCall site c → IsOther c
AccessCall→IsOther site c p = elim (IsOther-cases c) [
  | inl o ↦ o
  | inr (inl (k, st, e)) ↦ absurd (rw e at p)
  | inr (inr (k, fs, e)) ↦ absurd (rw e at p)
]

pub delete_site-Others : (site : Site) → Others (delete_site site)
delete_site-Others site = Emits-mono (DeletionCall→IsOther site) (delete_site-DeletionCall site)

pub ensure_site_initialized-Others :
    (site : Site) (bench : Bench) (domain : String) (info : DatabaseInfo)
    (creds : DatabaseCredentials)
    → Others (ensure_site_initialized site bench domain info creds)
ensure_site_initialized-Others site bench domain info creds =
    Emits-mono (InitCall→IsOther site)
      (ensure_site_initialized-InitCall site bench domain info creds)

pub ensure_access-Others :
    (openshift : Bool) (site : Site) (bench : Bench) (domain : String)
    → Others (ensure_access openshift site bench domain)
ensure_access-Others openshift site bench domain =
    Emits-mono (AccessCall→IsOther site) (ensure_access-AccessCall openshift site bench domain)

pub provider_ready-Others : (p : Provider) (site : Site) → Others (provider_ready p site)
unfolding provider_ready
provider_ready-Others mariadb site = is_ready-Emits site
provider_ready-Others sqlite site = search emit_rules
provider_ready-Others external site = Emits-mono (λ c p. absurd p) (external-Silent site).1

pub provider_ensure-Others : (p : Provider) (site : Site) → Others (provider_ensure p site)
unfolding provider_ensure
provider_ensure-Others mariadb site =
    Emits-mono (CreatesIn→IsOther site.namespace) (ensure_database-CreatesIn site)
provider_ensure-Others sqlite site = search emit_rules
provider_ensure-Others external site = Emits-mono (λ c p. absurd p) (external-Silent site).0

pub provider_credentials-Others :
    (p : Provider) (site : Site) → Others (provider_credentials p site)
unfolding provider_credentials
provider_credentials-Others mariadb site = get_credentials-Emits site
provider_credentials-Others sqlite site = search emit_rules
provider_credentials-Others external site = Emits-mono (λ c p. absurd p) (external-Silent site).2
