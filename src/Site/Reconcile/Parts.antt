-- ===== src/Site/Reconcile/Parts.antt =====
-- What the client answers to a site whose parts are ready, and the status of one that is ready.
use Prim.Native.String.{◌++◌}
use frappe_operator.Common.{◌∷◌, ◌≡◌, String, true, none, some, if◌then◌else◌}
use frappe_operator.Types.{NamespacedName, Site, SiteStatus, Bench}
use frappe_operator.Kube.{update_site_status, got, Call, History, Api}
use frappe_operator.Kube.Runs.{Runs}
use frappe_operator.Database.{Provider, in_namespace, new_provider, resolve_db_config}
use frappe_operator.Database.MariaDbProvider.{DatabaseInfo, DatabaseCredentials}
use frappe_operator.Domain.{resolve_domain, Source}
use frappe_operator.Site.Init.{ensure_site_initialized}
use frappe_operator.Site.Access.{ensure_access}
use frappe_operator.Site.Status.{Setup, key_of}
use frappe_operator.Site.Reconcile.{
  provider_ready, provider_ensure, provider_credentials, with_domain, with_database,
}

-- The domain of a site, and where it comes from.
abbrev pub domain_of : Setup → Site → Bench → String × Source
domain_of setup site bench =
    resolve_domain site.spec.domain site.spec.site_name bench.spec.domain_config setup.services

-- What the client answers to the parts of the site: its bench is ready, and so are its database, its
-- init job and its access, none of which needs a write. The site itself is only known to be found when
-- its status is written, at the start and after the first write.
pub record HasParts (api : Api) (setup : Setup) (site : Site) (bench : Bench) (start : History)
    : Type 0 where
  pub reference : NamespacedName
  pub referred : site.spec.bench_ref ≡ some reference
  pub on : (h : History) → api.get_bench h (in_namespace site reference) ≡ got bench
  pub up : bench.status.phase ≡ "Ready"
  pub provider : Provider
  pub chosen : new_provider (resolve_db_config site.spec bench.spec) ≡ got provider
  pub ready :
      (h : History)
      → Runs api (provider_ready provider (with_domain (domain_of setup site bench) site)) h true h
  pub info : DatabaseInfo
  pub provided :
      (h : History)
      → Runs api (provider_ensure provider (with_domain (domain_of setup site bench) site)) h info h
  pub creds : DatabaseCredentials
  pub known :
      (h : History)
      → Runs api
          (provider_credentials provider (with_domain (domain_of setup site bench) site))
          h
          creds
          h
  pub after : Site
  pub initialized :
      (h : History)
      → Runs api
          (ensure_site_initialized
            (with_database info creds (with_domain (domain_of setup site bench) site))
            bench
            (domain_of setup site bench).0
            info
            creds)
          h
          (after, got true)
          h
  pub same_key : key_of after ≡ key_of site
  pub same_generation : after.generation ≡ site.generation
  pub same_spec : after.spec ≡ site.spec
  pub accessible :
      (h : History)
      → Runs api
          (ensure_access setup.is_openshift after bench (domain_of setup site bench).0)
          h
          tt
          h
  pub latest : Site
  pub found : api.get_site start (key_of site) ≡ got latest
  pub later : Site
  pub found_later :
      api.get_site (update_site_status (key_of site) site.status ∷ start) (key_of site) ≡ got later
  pub accepts : (h : History) (c : Call) → api.write h c ≡ none

-- The status of a site that is ready at its domain.
pub record ReadyStatus (site : Site) (domain : String) (st : SiteStatus) : Type 0 where
  pub phase : st.phase ≡ "Ready"
  pub observed_generation : st.observed_generation ≡ site.generation
  pub site_url :
      st.site_url ≡ (if site.spec.tls.enabled then "https://" ++ domain else "http://" ++ domain)
