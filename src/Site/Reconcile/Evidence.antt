-- ===== src/Site/Reconcile/Evidence.antt =====
-- What has been read when a site is said to be ready, and when its finalizer is taken off.
use frappe_operator.Common.{
  ◌⊎◌, inl, inr, false, ◌≡◌, refl, sym, ap, ◌∙◌, String, Bool, true, some, List,
}
use frappe_operator.Types.{NamespacedName, Site, SiteStatus, Bench}
use frappe_operator.Kube.{got, Result, ok, err, panic, Call, History, Api, M, try_result}
use frappe_operator.Kube.SiteCalls.{CallHas, CallHas-mono}
use frappe_operator.Database.{
  in_namespace, own_key, Provider, resolve_db_config, new_provider, get_mariadb_root_credentials,
}
use frappe_operator.Database.MariaDbProvider as MariaDb
use frappe_operator.Database.External as External
use frappe_operator.Database.MariaDbProvider.{DatabaseInfo, DatabaseCredentials}
use frappe_operator.Site.Deletion.{Finished, Succeeded}
use frappe_operator.Site.Reconcile.{has_finalizer, provider_ready}

-- The bench was read as ready.
pub record BenchReady (api : Api) (site : Site) (bench : Bench) : Type 0 where
  pub ref : NamespacedName
  pub named : site.spec.bench_ref ≡ some ref
  pub at_bench : History
  pub found : api.get_bench at_bench (in_namespace site ref) ≡ got bench
  pub phase : bench.status.phase ≡ "Ready"

-- The provider that the configuration chooses reported that the database is ready.
pub record DatabaseReady (api : Api) (site : Site) (bench : Bench) : Type 0 where
  pub provider : Provider
  pub chosen : new_provider (resolve_db_config site.spec bench.spec) ≡ got provider
  pub at_database : History
  pub reported : (provider_ready provider site api at_database).0 ≡ ok true

-- The initialisation job was read as succeeded.
pub record JobDone (api : Api) (site : Site) : Type 0 where
  pub at_job : History
  pub done : Succeeded (api.get_job at_job (own_key site "-init"))

pub record Evidence (api : Api) (site : Site) : Type 0 where
  pub bench : Bench
  pub bench_ready : BenchReady api site bench
  pub database_ready : DatabaseReady api site bench
  pub initialised : JobDone api site

-- The site is being deleted, and `deleteSite` was done with it.
pub record Deleted (api : Api) (site : Site) : Type 0 where
  pub deleting : site.deleting ≡ true
  pub before : History
  pub after : History
  pub finished : Finished site api before after

-- The status is not written as ready without the evidence, unless it was ready before, and the
-- finalizer is not taken off before the site was deleted.
abbrev pub Justified : Api → Site → Call → Type 0
Justified api site =
    CallHas (λ st. st.phase ≡ "Ready" → (site.status.phase ≡ "Ready") ⊎ Evidence api site)
      (λ fs. has_finalizer fs ≡ false → Deleted api site)

pub provider_ready-status :
    (p : Provider) (site : Site) (st : SiteStatus)
    → provider_ready p (record site { status = st }) ≡ provider_ready p site
unfolding provider_ready MariaDb.is_ready External.is_ready
provider_ready-status Provider.mariadb site st = refl
provider_ready-status Provider.sqlite site st = refl
provider_ready-status Provider.external site st = refl

pub try-ok :
    {A : Type 0} (r : Result A × History) (a : A) (h : History)
    → try_result r ≡ (ok (got a), h)
    → r.0 ≡ ok a
try-ok (ok b, g) a h e = cc
try-ok (err x, g) a h e = cc
try-ok (panic, g) a h e = cc

-- The finalizers say nothing of what was read.
provider_ready-finalizers :
    (p : Provider) (site : Site) (fs : List String)
    → provider_ready p (record site { finalizers = fs }) ≡ provider_ready p site
unfolding provider_ready MariaDb.is_ready External.is_ready
provider_ready-finalizers Provider.mariadb site fs = refl
provider_ready-finalizers Provider.sqlite site fs = refl
provider_ready-finalizers Provider.external site fs = refl

Evidence-finalizers :
    (api : Api) (site : Site) (fs : List String)
    → Evidence api (record site { finalizers = fs })
    → Evidence api site
Evidence-finalizers api site fs e = record {
  bench = e.bench;
  bench_ready = record {
    ref = e.bench_ready.ref;
    named = e.bench_ready.named;
    at_bench = e.bench_ready.at_bench;
    found = e.bench_ready.found;
    phase = e.bench_ready.phase;
  };
  database_ready = record {
    provider = e.database_ready.provider;
    chosen = e.database_ready.chosen;
    at_database = e.database_ready.at_database;
    reported =
        ap (λ (m : M Bool). (m api e.database_ready.at_database).0)
          (sym (provider_ready-finalizers e.database_ready.provider site fs))
        ∙ e.database_ready.reported;
  };
  initialised = record { at_job = e.initialised.at_job; done = e.initialised.done };
}

pub Justified-finalizers :
    (api : Api) (site : Site) (fs : List String) (c : Call)
    → Justified api (record site { finalizers = fs }) c
    → Justified api site c
unfolding get_mariadb_root_credentials
Justified-finalizers api site fs =
    CallHas-mono
      (λ st k r. elim (k r) [ inl p ↦ inl p | inr e ↦ inr (Evidence-finalizers api site fs e) ])
      (λ gs k r.
        let d : Deleted api (record site { finalizers = fs }) = k r in
        record { deleting = d.deleting; before = d.before; after = d.after; finished = d.finished })
