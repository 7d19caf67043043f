-- ===== src/Site/Reconcile/Settled.antt =====
-- The reconciliation of a site whose parts are ready.
use Prim.Native.String.{◌++◌}
use frappe_operator.Common.{
  ℕ, ◌≡◌, refl, ap, ◌∙◌, String, true, false, ◌&&◌, Option, some, ◌∷◌, str_eq, ◌==◌, if◌then◌else◌,
  arith,
}
use frappe_operator.Types.{NamespacedName, SiteSpec, Site, SiteStatus, Bench}
use frappe_operator.Kube.{Got, got, update_site_status, History, Api, ok, ◌>>=◌}
use frappe_operator.Kube.Runs.{Runs, bind-Runs, ask-Runs, pure-Runs, try-Runs, then-Runs, else-Runs}
use frappe_operator.Site.Status.{Setup, done, key_of, update_status}
use frappe_operator.Site.Status.Settled.{update_status-Runs}
use frappe_operator.Site.Reconcile.{
  has_finalizer, add_finalizer, with_domain, finished, finalize, after_init, initialize,
  with_readiness, with_provider, on_ready_bench, on_bench, with_bench_ref, progress, reconcile_site,
  reconcile_found, reconcile,
}
use frappe_operator.Site.Reconcile.Parts.{domain_of, HasParts, ReadyStatus}

module _ (api : Api) (setup : Setup) (site : Site) (bench : Bench) (start : History)
    (p : HasParts api setup site bench start) where
  abbrev written : History
  written = update_site_status (key_of site) site.status ∷ start

  abbrev domain : String
  domain = (domain_of setup site bench).0

  abbrev placed : Site
  placed = with_domain (domain_of setup site bench) site

  latest-Runs :
      Runs api
        (update_status setup.retries (finished p.after domain))
        written
        tt
        (update_site_status (key_of site) (finished p.after domain).status ∷ written)
  unfolding finished
  latest-Runs =
      update_status-Runs api (finished p.after domain) p.later written
        (ap (λ (k : NamespacedName). api.get_site written k) p.same_key ∙ p.found_later) p.accepts
        setup.retries
      ∙ ap
          (λ (k : NamespacedName).
            (ok tt, update_site_status k (finished p.after domain).status ∷ written))
          p.same_key

  finalize-Runs :
      Runs api
        (finalize setup p.after bench domain)
        written
        done
        (update_site_status (key_of site) (finished p.after domain).status ∷ written)
  unfolding finalize
  finalize-Runs =
      bind-Runs api _ _ written written tt _ (p.accessible written)
        (bind-Runs api _ _ written _ tt _ latest-Runs (pure-Runs api _ done))

  initialize-Runs :
      Runs api
        (initialize setup bench domain placed (got p.info) (got p.creds))
        written
        done
        (update_site_status (key_of site) (finished p.after domain).status ∷ written)
  unfolding initialize after_init
  initialize-Runs =
      bind-Runs api _ _ written written (p.after, got true) _ (p.initialized written) finalize-Runs

  with_provider-Runs :
      Runs api
        (with_provider setup bench domain placed (got p.provider))
        written
        done
        (update_site_status (key_of site) (finished p.after domain).status ∷ written)
  unfolding with_provider with_readiness
  with_provider-Runs =
      bind-Runs api _ _ written written (got true) _
        (try-Runs api _ written written true (p.ready written))
        (bind-Runs api _ _ written written (got p.info) _
          (try-Runs api _ written written p.info (p.provided written))
          (bind-Runs api _ _ written written (got p.creds) _
            (try-Runs api _ written written p.creds (p.known written)) initialize-Runs))

  on_bench-Runs :
      Runs api
        (on_bench setup site (got bench))
        written
        done
        (update_site_status (key_of site) (finished p.after domain).status ∷ written)
  unfolding on_bench on_ready_bench
  on_bench-Runs =
      let test : str_eq bench.status.phase "Ready" ≡ true = rw p.up refl in
      rw (test, p.chosen) with_provider-Runs

  ref-Runs :
      (o : Option NamespacedName)
      → o ≡ some p.reference
      → Runs api
          (with_bench_ref setup site o)
          written
          done
          (update_site_status (key_of site) (finished p.after domain).status ∷ written)
  unfolding with_bench_ref
  ref-Runs o q = rw q (
      bind-Runs api _ _ written written (got bench) _ (ask-Runs api written _ _ (p.on written))
        on_bench-Runs)

  progress-Runs :
      Runs api
        (progress setup site)
        start
        done
        (update_site_status (key_of site) (finished p.after domain).status ∷ written)
  unfolding progress
  progress-Runs =
      bind-Runs api _ _ start _ tt _
        (update_status-Runs api site p.latest start p.found p.accepts setup.retries)
        (ref-Runs site.spec.bench_ref p.referred)

  finished-ReadyStatus : ReadyStatus site domain (finished p.after domain).status
  unfolding finished
  finished-ReadyStatus = record {
    phase = refl;
    observed_generation = p.same_generation;
    site_url =
        ap (λ (s : SiteSpec). if s.tls.enabled then "https://" ++ domain else "http://" ++ domain)
          p.same_spec;
  }

  found-Runs :
      (g : Got Site)
      → g ≡ got site
      → site.deleting ≡ false
      → has_finalizer site.finalizers ≡ true
      → (str_eq site.status.phase "Ready" && site.status.observed_generation == site.generation)
        ≡ false
      → Runs api
          (reconcile_found setup g)
          start
          done
          (update_site_status (key_of site) (finished p.after domain).status ∷ written)
  unfolding reconcile_found add_finalizer reconcile_site
  found-Runs g q alive held unready = rw q (
      bind-Runs api _ _ start start site _
        (then-Runs api _ _ _ start start site held (pure-Runs api start site))
        (else-Runs api _ _ _ start _ done unready
          (else-Runs api _ _ _ start _ done alive progress-Runs)))

same_number : (n : ℕ) → (n == n) ≡ true
same_number n = ground arith

module _ (setup : Setup) (site : Site) (domain : String) (st : SiteStatus)
    (r : ReadyStatus site domain st) where
  ready_test : (str_eq st.phase "Ready" && st.observed_generation == site.generation) ≡ true
  ready_test = rw (r.phase, r.observed_generation) (same_number site.generation)

  stays-Runs :
      (g : Got Site)
      → g ≡ got (record site { status = st })
      → has_finalizer site.finalizers ≡ true
      → (api : Api) (h : History) → Runs api (reconcile_found setup g) h done h
  unfolding reconcile_found add_finalizer reconcile_site ◌>>=◌
  stays-Runs g q held api h = rw (q, held, ready_test) refl

-- The reconciliation of a site that is not being deleted, has its finalizer and is not yet ready for
-- its generation ends without a delay, if its bench, its database, its init job and its access are
-- ready, the site is found when its status is written, and the client accepts every write: it writes
-- the status as it was read, and then a status whose phase is Ready, with the generation and the URL
-- of the site, and nothing else. A later reconciliation that reads the site with that status writes
-- nothing.
pub reconcile-settles :
    (api : Api) (setup : Setup) (site : Site) (bench : Bench) (key : NamespacedName) (h : History)
    → HasParts api setup site bench h
    → api.get_site h key ≡ got site
    → site.deleting ≡ false
    → has_finalizer site.finalizers ≡ true
    → (str_eq site.status.phase "Ready" && site.status.observed_generation == site.generation)
      ≡ false
    → (st : SiteStatus) × ReadyStatus site (domain_of setup site bench).0 st
      × Runs api
          (reconcile setup key)
          h
          done
          (update_site_status (key_of site) st ∷ update_site_status (key_of site) site.status ∷ h)
      × ((h' : History)
          → api.get_site h' key ≡ got (record site { status = st })
          → Runs api (reconcile setup key) h' done h')
unfolding reconcile
reconcile-settles api setup site bench key h p found alive held unready =
    let r = finished-ReadyStatus api setup site bench h p in
    (
      _,
      r,
      bind-Runs api _ _ h h (got site) _ (ask-Runs api h _ _ found)
          (found-Runs api setup site bench h p _ refl alive held unready),
      λ h' again.
          bind-Runs api _ _ h' h' _ _ (ask-Runs api h' _ _ again)
            (stays-Runs setup site _ _ r _ refl held api h'),
    )
