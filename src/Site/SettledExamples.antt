-- ===== src/Site/SettledExamples.antt =====
-- A site with a file database whose parts are ready.
use frappe_operator.Common.{◌≡◌, refl, true, false, none, [], ◌∷◌}
use frappe_operator.Types.{Site, SiteStatus, completed}
use frappe_operator.Backoff.{amd64}
use frappe_operator.Kube.{got, update_site_status, History, Api, ◌>>=◌}
use frappe_operator.Kube.Runs.{Runs}
use frappe_operator.Database.{sqlite, new_provider, resolve_db_config}
use frappe_operator.Domain.{resolve_domain}
use frappe_operator.Site.Init.{set_apps, ensure_site_initialized}
use frappe_operator.Site.Access.{ensure_access}
use frappe_operator.Site.Status.{Setup, done, key_of}
use frappe_operator.Site.Reconcile.{
  site_finalizer, has_finalizer, provider_ready, provider_ensure, provider_credentials, with_domain,
  with_database, reconcile,
}
use frappe_operator.Site.Reconcile.Parts.{domain_of, HasParts, ReadyStatus}
use frappe_operator.Site.Reconcile.Settled.{reconcile-settles}
use frappe_operator.Database.MariaDbProvider.{DatabaseInfo, DatabaseCredentials}
use frappe_operator.Fixtures.{
  shop, shop_spec, dedicated_config, prod, prod_bench_ref, bench_cluster,
}

abbrev setup : Setup
setup = record { is_openshift = false; convert = amd64; services = λ k. none; retries = 4 }

abbrev file_site : Site
file_site = record shop {
  finalizers = site_finalizer ∷ [];
  spec = record shop_spec { db_config = record dedicated_config { provider = "sqlite" } };
}

-- The status that was written last.
abbrev status_in : History → SiteStatus
status_in [] = file_site.status
status_in (update_site_status k st ∷ h) = st
status_in (c ∷ h) = status_in h

-- A client that reads the site with the status that was written.
abbrev full_cluster : Api
full_cluster = record bench_cluster {
  get_site = λ h k. got (record file_site { status = status_in h });
  get_job = λ h k. got (record { succeeded = 1; failures = 0 });
  exists = λ h kind k. got tt;
}

abbrev file_info : DatabaseInfo
file_info = record { host = ""; port = ""; name = "site"; provider = "sqlite" }

abbrev no_creds : DatabaseCredentials
no_creds = record { username = ""; password = ""; secret_name = "" }

file_site-HasParts : HasParts full_cluster setup file_site prod []
unfolding resolve_domain new_provider resolve_db_config provider_ready provider_ensure
    provider_credentials ensure_site_initialized ensure_access ◌>>=◌
file_site-HasParts = record {
  reference = prod_bench_ref;
  referred = refl;
  on = λ h. refl;
  up = refl;
  provider = sqlite;
  chosen = refl;
  ready = λ h. refl;
  info = file_info;
  provided = λ h. refl;
  creds = no_creds;
  known = λ h. refl;
  after =
      set_apps ("erpnext" ∷ []) (completed 1)
        (with_database file_info no_creds (with_domain (domain_of setup file_site prod) file_site));
  initialized = λ h. refl;
  same_key = refl;
  same_generation = refl;
  same_spec = refl;
  accessible = λ h. refl;
  latest = file_site;
  found = refl;
  later = file_site;
  found_later = refl;
  accepts = λ h c. refl;
}

is_held : has_finalizer (site_finalizer ∷ []) ≡ true
unfolding has_finalizer
is_held = refl

reconcile-settles_example :
    (st : SiteStatus) × ReadyStatus file_site (domain_of setup file_site prod).0 st
    × Runs full_cluster (reconcile setup (key_of file_site)) [] done (
        update_site_status (key_of file_site) st
        ∷ update_site_status (key_of file_site) file_site.status
        ∷ [])
    × ((h' : History)
        → full_cluster.get_site h' (key_of file_site) ≡ got (record file_site { status = st })
        → Runs full_cluster (reconcile setup (key_of file_site)) h' done h')
reconcile-settles_example =
    reconcile-settles full_cluster setup file_site prod (key_of file_site) [] file_site-HasParts
      refl refl is_held refl

-- The second of two reconciliations, which reads what the first one wrote, writes nothing.
settled_again_test :
    (st : SiteStatus) × (let h =
        update_site_status (key_of file_site) st
        ∷ update_site_status (key_of file_site) file_site.status
        ∷ [] in
      Runs full_cluster (reconcile setup (key_of file_site)) [] done h
      × Runs full_cluster (reconcile setup (key_of file_site)) h done h)
settled_again_test =
    let (st, ready, runs, again) =
      reconcile-settles full_cluster setup file_site prod (key_of file_site) [] file_site-HasParts
        refl refl is_held refl in
    (st, (runs, again _ refl))
