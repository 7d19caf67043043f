-- ===== src/Site/Reconcile/Ready.antt =====
-- What has happened before a site is said to be ready, and before its finalizer is taken off.
use mathlib.Core.List.{◌++◌ as ◌+++◌}
use frappe_operator.Common.{
  ◌≡◌, eq_refl, refl, ap, ◌∙◌, String, true, ◌&&◌, List, str_eq, if◌then◌else◌, arith, ◌==◌,
  Bool-cases, inl, inr, [], ◌∷◌,
}
use frappe_operator.Types.{NamespacedName, Site}
use frappe_operator.Kube.{
  Got, got, failed, ok, History, Api, M, pure, perform, update_finalizers, try, ◌>>=◌, ◌>>◌,
}
use frappe_operator.Kube.Traces.{
  Grows, Emits, Emits-bind, Emits-pure, Emits-try, Emits-attempt, Emits-check, is_ok,
}
use frappe_operator.Kube.Reads.{
  EmitsFrom, From-Emits, From-bind, From-if, From-pure, From-then, From-mono,
}
use frappe_operator.Site.{delete_site}
use frappe_operator.Site.Deletion.{delete_site-Finished}
use frappe_operator.Site.Status.{Setup, done, key_of, update_status}
use frappe_operator.Site.Status.Writes.{ignore_status-Emits, wait-Emits}
use frappe_operator.Site.Reconcile.Others.{delete_site-Others}
use frappe_operator.Site.Reconcile.{
  has_finalizer, site_finalizer, remove_finalizer, add_finalizer, after_deletion, delete_flow,
  progress, reconcile_site, reconcile_found, reconcile,
}
use frappe_operator.Site.Reconcile.Evidence.{Deleted, Justified, try-ok, Justified-finalizers}
use frappe_operator.Site.Reconcile.Progress.{other, written, progress-Guards}

module _ (setup : Setup) (api : Api) (site : Site) where
  abbrev Guards : {A : Type 0} → M A → Type 0
  Guards m = Emits (Justified api site) m

  abbrev GuardsFrom : {A : Type 0} → M A → Type 0
  GuardsFrom m = EmitsFrom api (Justified api site) m

  after_deletion-Guards :
      (g : Got (Unit {0})) → (g ≡ got tt → Deleted api site) → Guards (after_deletion setup site g)
  unfolding after_deletion
  after_deletion-Guards (failed e) k =
      Emits-bind _ _ (ignore_status-Emits site (λ r. inl r) setup)
        (λ u. wait-Emits setup _ site (λ v. tt))
  after_deletion-Guards (got tt) k =
      Emits-bind _ _
        (Emits-bind _ _
          (Emits-attempt (update_finalizers (key_of site) (remove_finalizer site.finalizers))
            (λ r. k refl))
          (λ o. Emits-check _ o))
        (λ u. Emits-pure _)

  -- What a value of `deleteSite` says.
  deletion_finished :
      (g : Got (Unit {0})) (h h' : History)
      → site.deleting ≡ true
      → try (delete_site site) api h ≡ (ok g, h')
      → g ≡ got tt
      → Deleted api site
  unfolding ◌>>=◌
  deletion_finished g h h' d e t = record {
    deleting = d;
    before = h;
    after = (delete_site site api h).1;
    finished = delete_site-Finished site api h (
        ap is_ok
          (try-ok (delete_site site api h) tt h' (e ∙ ap (λ (r : Got (Unit {0})). (ok r, h')) t)));
  }

  delete_flow-Guards : site.deleting ≡ true → GuardsFrom (delete_flow setup site)
  unfolding delete_flow
  delete_flow-Guards d =
      From-if (has_finalizer site.finalizers)
        (update_status setup.retries site >> (try (delete_site site) >>= after_deletion setup site))
        (pure done)
        (λ t. From-bind _ _ (From-Emits (written setup api site)) (λ u h h' e.
          From-bind _ _ (From-Emits (Emits-try _ (other setup api site (delete_site-Others site))))
            (λ g k k' f. From-Emits (after_deletion-Guards g (deletion_finished g k k' d f)))))
        (λ t. From-Emits (Emits-pure done))

  reconcile_site-Guards : GuardsFrom (reconcile_site setup site)
  unfolding reconcile_site
  reconcile_site-Guards =
      From-if
        (str_eq site.status.phase "Ready" && site.status.observed_generation == site.generation)
        (pure done) (if site.deleting then delete_flow setup site else progress setup site)
        (λ t. From-Emits (Emits-pure done))
        (λ t.
          From-if site.deleting (delete_flow setup site) (progress setup site)
            (λ d. delete_flow-Guards d) (λ d. progress-Guards setup api site))

has_finalizer-append : (fs : List String) → has_finalizer (fs +++ (site_finalizer ∷ [])) ≡ true
unfolding has_finalizer
has_finalizer-append [] = rw (eq_refl site_finalizer) refl
has_finalizer-append (f ∷ fs) = ground (arith, has_finalizer-append fs)

module _ (setup : Setup) (api : Api) (site : Site) where
  add_finalizer-Guards :
      EmitsFrom api (Justified api site) (add_finalizer site >>= reconcile_site setup)
  unfolding add_finalizer
  add_finalizer-Guards = elim (Bool-cases (has_finalizer site.finalizers)) [
    | inl has ↦
        rw has (From-pure site (reconcile_site setup) (reconcile_site-Guards setup api site))
    | inr lacks ↦
        let fs : List String = site.finalizers +++ (site_finalizer ∷ []) in
        rw lacks (
          From-then (perform (λ e. e) (update_finalizers (key_of site) fs))
            (record site { finalizers = fs }) (reconcile_site setup)
            (From-Emits (
              Emits-bind _ _
                (Emits-attempt (update_finalizers (key_of site) fs)
                  (λ r. ground (arith, has_finalizer-append site.finalizers)))
                (λ o. Emits-check _ o)))
            (From-mono (Justified-finalizers api site fs)
              (reconcile_site-Guards setup api (record site { finalizers = fs }))))
  ]

  reconcile_found-Guards : EmitsFrom api (Justified api site) (reconcile_found setup (got site))
  unfolding reconcile_found
  reconcile_found-Guards = add_finalizer-Guards

-- Of the writes of a reconciliation, whatever the cluster answers: a ready status is written only if
-- the site was ready when it was read, or after its bench was read as ready, the provider that the
-- configuration of site and bench chooses reported that the database is ready, and the site's
-- initialisation job was read as succeeded; and finalizers without the operator's own are written
-- only for a site that is being deleted, after `deleteSite` was done with it.
pub reconcile-Justified :
    (setup : Setup) (key : NamespacedName) (api : Api) (h : History) (site : Site)
    → api.get_site h key ≡ got site
    → Grows (Justified api site) h (reconcile setup key api h).1
unfolding reconcile ◌>>=◌
reconcile-Justified setup key api h site found =
    rw found ((reconcile_found-Guards setup api site).run h)
