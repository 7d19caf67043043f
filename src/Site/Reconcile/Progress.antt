-- ===== src/Site/Reconcile/Progress.antt =====
-- The writes for a site that is not being deleted.
use frappe_operator.Common.{
  ℕ, ◌≡◌, ◌⊎◌, refl, sym, ap, ◌∙◌, String, Bool, true, false, not, Option, none, some, str_eq,
  eq_iff, str_ne, arith, inl, inr,
}
use frappe_operator.Types.{NamespacedName, Site, SiteStatus, Bench}
use frappe_operator.Kube.{Got, got, failed, Result, ok, History, Api, M, try, ◌>>=◌}
use frappe_operator.Kube.Traces.{
  Emits, Emits-mono, Emits-bind, Emits-pure, Emits-nil_dereference, Emits-try,
}
use frappe_operator.Kube.Reads.{EmitsFrom, From-Emits, From-bind, From-ask, From-if}
use frappe_operator.Kube.SiteCalls.{IsOther, IsOther→CallHas}
use frappe_operator.Database.{in_namespace, Provider, resolve_db_config, new_provider}
use frappe_operator.Database.MariaDbProvider.{DatabaseInfo, DatabaseCredentials}
use frappe_operator.Site.Init.Readiness.{reports_ready, ensure_site_initialized-ready}
use frappe_operator.Site.Status.{Setup, update_status, pending_then_wait, fail}
use frappe_operator.Site.Status.Writes.{update_status-Emits, pending_then_wait-Emits, fail-Emits}
use frappe_operator.Site.Reconcile.Others.{
  ensure_site_initialized-Others, ensure_access-Others, provider_ready-Others,
  provider_ensure-Others, provider_credentials-Others,
}
use frappe_operator.Site.Reconcile.{
  provider_ready, has_finalizer, finished, finalize, after_init, with_database, initialize,
  after_provision, with_readiness, with_provider, on_ready_bench, on_bench, with_bench_ref,
  progress,
}
use frappe_operator.Site.Reconcile.Evidence.{
  BenchReady, DatabaseReady, Evidence, Deleted, Justified, provider_ready-status, try-ok,
}

module _ (setup : Setup) (api : Api) (site : Site) where
  abbrev Guards : {A : Type 0} → M A → Type 0
  Guards m = Emits (Justified api site) m

  abbrev GuardsFrom : {A : Type 0} → M A → Type 0
  GuardsFrom m = EmitsFrom api (Justified api site) m

  pub other : {A : Type 0} {m : M A} → Emits IsOther m → Guards m
  other k =
      Emits-mono
        (IsOther→CallHas
          (λ st. st.phase ≡ "Ready" → (site.status.phase ≡ "Ready") ⊎ Evidence api site)
          (λ fs. has_finalizer fs ≡ false → Deleted api site))
        k

  pending-Guards : (base : ℕ) (s : Site) → Guards (pending_then_wait setup "Pending" base s)
  pending-Guards base s =
      pending_then_wait-Emits setup s "Pending" base (λ r. absurd (str_ne "Pending" "Ready" refl r))
        (λ v. tt)

  provisioning-Guards :
      (base : ℕ) (s : Site) → Guards (pending_then_wait setup "Provisioning" base s)
  provisioning-Guards base s =
      pending_then_wait-Emits setup s "Provisioning" base
        (λ r. absurd (str_ne "Provisioning" "Ready" refl r)) (λ v. tt)

  fail-Guards : (text : String) (s : Site) → Guards (fail setup text s)
  fail-Guards text s = fail-Emits setup s text (λ r. absurd (str_ne "Failed" "Ready" refl r))

  finalize-Guards :
      (s : Site) (bench : Bench) (domain : String)
      → Evidence api site
      → Guards (finalize setup s bench domain)
  unfolding finalize
  finalize-Guards s bench domain e =
      Emits-bind _ _ (other (ensure_access-Others setup.is_openshift s bench domain)) (λ u.
        Emits-bind _ _ (update_status-Emits (finished s domain) (λ r. inr e) setup.retries)
          (λ v. Emits-pure _))

  after_init-Guards :
      (bench : Bench) (domain : String) (r : Site × Got Bool)
      → (reports_ready (ok r) ≡ true → Evidence api site)
      → Guards (after_init setup bench domain r)
  unfolding after_init
  after_init-Guards bench domain (s, failed e) k = fail-Guards _ s
  after_init-Guards bench domain (s, got true) k = finalize-Guards s bench domain (k refl)
  after_init-Guards bench domain (s, got false) k = provisioning-Guards _ s

  after_provision-Guards : (s : Site) (g : Got DatabaseInfo) → Guards (after_provision setup s g)
  unfolding after_provision
  after_provision-Guards s (failed e) = fail-Guards _ s
  after_provision-Guards s (got info) = provisioning-Guards _ s

  module _ (bench : Bench) (ready : BenchReady api site bench) (domain : String)
      (st : SiteStatus) where
    abbrev at : Site
    at = record site { status = st }

    initialize-Guards :
        DatabaseReady api site bench
        → (g : Got DatabaseInfo) (k : Got DatabaseCredentials)
        → GuardsFrom (initialize setup bench domain at g k)
    unfolding initialize
    initialize-Guards d (failed e) k = From-Emits Emits-nil_dereference
    initialize-Guards d (got info) (failed e) = From-Emits Emits-nil_dereference
    initialize-Guards d (got info) (got creds) =
        From-bind _ _
          (From-Emits (
            other (
              ensure_site_initialized-Others (with_database info creds at) bench domain info
                creds)))
          (λ r h h' e. From-Emits (
            after_init-Guards bench domain r (λ t. record {
              bench = bench;
              bench_ready = ready;
              database_ready = d;
              initialised = record {
                at_job = h;
                done =
                    (ensure_site_initialized-ready (with_database info creds at) bench domain info
                      creds api h
                      (ap (λ (x : Result (Site × Got Bool) × History). reports_ready x.0) e ∙ t)).0;
              };
            })))

    with_readiness-Guards :
        (p : Provider) (g : Got Bool)
        → (g ≡ got true → DatabaseReady api site bench)
        → GuardsFrom (with_readiness setup bench domain at p g)
    unfolding with_readiness
    with_readiness-Guards p (failed e) d = From-Emits (fail-Guards _ at)
    with_readiness-Guards p (got true) d =
        From-bind _ _ (From-Emits (Emits-try _ (other (provider_ensure-Others p at))))
          (λ info h h' e.
            From-bind _ _ (From-Emits (Emits-try _ (other (provider_credentials-Others p at))))
              (λ creds g g' k. initialize-Guards (d refl) info creds))
    with_readiness-Guards p (got false) d = From-Emits (
        Emits-bind _ _ (Emits-try _ (other (provider_ensure-Others p at)))
          (after_provision-Guards at))

    reported_ready :
        (p : Provider) (r : Got Bool) (h h' : History)
        → try (provider_ready p at) api h ≡ (ok r, h')
        → r ≡ got true
        → (provider_ready p site api h).0 ≡ ok true
    unfolding ◌>>=◌
    reported_ready p r h h' e t =
        ap (λ (m : M Bool). (m api h).0) (sym (provider_ready-status p site st))
        ∙ try-ok (provider_ready p at api h) true h' (e ∙ ap (λ (g : Got Bool). (ok g, h')) t)

    with_provider-Guards :
        (g : Got Provider)
        → new_provider (resolve_db_config site.spec bench.spec) ≡ g
        → GuardsFrom (with_provider setup bench domain at g)
    unfolding with_provider
    with_provider-Guards (failed e) c = From-Emits (fail-Guards _ at)
    with_provider-Guards (got p) c =
        From-bind _ _ (From-Emits (Emits-try _ (other (provider_ready-Others p at)))) (λ r h h' e.
          with_readiness-Guards p r (λ t. record {
            provider = p;
            chosen = c;
            at_database = h;
            reported = reported_ready p r h h' e t;
          }))

  on_ready_bench-Guards :
      (bench : Bench) → BenchReady api site bench → GuardsFrom (on_ready_bench setup site bench)
  unfolding on_ready_bench
  on_ready_bench-Guards bench ready = with_provider-Guards bench ready _ _ _ refl

  on_bench-Guards :
      (ref : NamespacedName) (h : History) (g : Got Bench)
      → site.spec.bench_ref ≡ some ref
      → api.get_bench h (in_namespace site ref) ≡ g
      → GuardsFrom (on_bench setup site g)
  unfolding on_bench
  on_bench-Guards ref h (failed e) b f = From-Emits (pending-Guards _ site)
  on_bench-Guards ref h (got bench) b f =
      From-if (not (str_eq bench.status.phase "Ready"))
        (pending_then_wait setup "Pending" 10000000000 site) (on_ready_bench setup site bench)
        (λ t. From-Emits (pending-Guards 10000000000 site))
        (λ t. on_ready_bench-Guards bench (record {
          ref = ref;
          named = b;
          at_bench = h;
          found = f;
          phase = ground (arith, eq_iff bench.status.phase "Ready");
        }))

  with_bench_ref-Guards :
      (o : Option NamespacedName)
      → site.spec.bench_ref ≡ o
      → GuardsFrom (with_bench_ref setup site o)
  unfolding with_bench_ref
  with_bench_ref-Guards none b = From-Emits (fail-Guards _ site)
  with_bench_ref-Guards (some r) b = From-ask _ _ (λ h. on_bench-Guards r h _ b refl)

  pub written : Guards (update_status setup.retries site)
  written = update_status-Emits site (λ r. inl r) setup.retries

  pub progress-Guards : GuardsFrom (progress setup site)
  unfolding progress
  progress-Guards =
      From-bind _ _ (From-Emits written)
        (λ u h h' e. with_bench_ref-Guards site.spec.bench_ref refl)
