-- ===== src/Site/Deletion.antt =====
-- When `deleteSite` is done with a site, which lets the reconciler take its finalizer off.
use frappe_operator.Common.{
  ◌<◌, ◌≡◌, ◌⊎◌, inl, inr, refl, ◌∙◌, String, true, not, Option, none, some, ◌∷◌, ltb, Bool-cases,
  arith,
}
use frappe_operator.Types.{NamespacedName, Site, Bench}
use frappe_operator.Kube.{
  Err, wrap, Got, got, failed, Result, ok, err, panic, Job, job_kind, delete, History, Api, check,
  continue, try_result, ◌>>=◌, is_not_found,
}
use frappe_operator.Kube.Traces.{
  Fails, Fails-raise, Fails-bind, Fails-if, if-ok-then, if-ok-else, is_ok, Emits-nothing,
}
use frappe_operator.Database.{in_namespace, own_key, get_mariadb_root_credentials}
use frappe_operator.Database.RootCredentials.{
  NotFound, NotFoundResult, CredentialsMissing, get_mariadb_root_credentials-missing,
  get_mariadb_root_credentials-Silent, get_mariadb_root_credentials-dedicated,
}
use frappe_operator.Site.{
  create_deletion_job, delete_with, finish_job, delete_by, delete_on, delete_of, delete_site,
}

abbrev pub Succeeded : Got Job → Type 0
Succeeded (failed e) = ⊥
Succeeded (got j) = 0 < j.succeeded

-- There is no deletion job, and what the root password is read from is not there.
abbrev pub Skipped : Site → Api → History → History → Type 0
Skipped site api h h' =
    NotFound (api.get_job h (own_key site "-delete")) × CredentialsMissing site api h × (h' ≡ h)

-- The deletion job has succeeded, and it was deleted.
abbrev pub Dropped : Site → Api → History → History → Type 0
Dropped site api h h' =
    let c = delete job_kind (own_key site "-delete") in
    Succeeded (api.get_job h (own_key site "-delete")) × (api.write h c ≡ none) × (h' ≡ c ∷ h)

-- The three ways in which `deleteSite` is done, with the history after them.
abbrev pub FinishedAt : Site → Option NamespacedName → Api → History → History → Type 0
FinishedAt site none api h h' = ⊥
FinishedAt site (some r) api h h' =
    (NotFound (api.get_bench h (in_namespace site r)) × (h' ≡ h))
    ⊎ (Dropped site api h h' ⊎ Skipped site api h h')

abbrev pub Finished : Site → Api → History → History → Type 0
Finished site api h h' = FinishedAt site site.spec.bench_ref api h h'

create_deletion_job-Fails :
    (site : Site) (bench : Bench) (c : String × String) → Fails (create_deletion_job site bench c)
unfolding create_deletion_job
create_deletion_job-Fails site bench c = search (Fails-raise, Fails-bind) depth 9

module _ (site : Site) (bench : Bench) (api : Api) where
  delete_with-root :
      (r : Result (String × String) × History)
      → is_ok (continue (try_result r) (delete_with site bench) api).0 ≡ true
      → NotFoundResult r.0 × ((continue (try_result r) (delete_with site bench) api).1 ≡ r.1)
  unfolding delete_with ◌>>=◌
  delete_with-root (ok c, h) e = ground (arith, (create_deletion_job-Fails site bench c).run api h)
  delete_with-root (err x, h) e = elim (Bool-cases (is_not_found x)) [
    | inl k ↦ rw k (refl, refl)
    | inr k ↦ ground arith
  ]
  delete_with-root (panic, h) e = ground arith

  -- The write at the end of a handler, with its error as a value.
  check-ok :
      (f : Err → Err) (o : Option Err) (h : History)
      → is_ok (check f o api h).0 ≡ true
      → (o ≡ none) × ((check f o api h).1 ≡ h)
  unfolding ◌>>=◌
  check-ok f none h e = (refl, refl)
  check-ok f (some x) h e = ground arith

  finish_job-Dropped :
      (h : History) (j : Job)
      → api.get_job h (own_key site "-delete") ≡ got j
      → is_ok (finish_job site j api h).0 ≡ true
      → Dropped site api h (finish_job site j api h).1
  unfolding finish_job ◌>>=◌
  finish_job-Dropped h j g e =
      let c = delete job_kind (own_key site "-delete") in
      let (k, e', same) =
        if-ok-then (ltb 0 j.succeeded) _ _ api h (search (Fails-if, Fails-raise)) e in
      let (w, kept) = check-ok _ (api.write h c) (c ∷ h) e' in rw g (ground arith, w, same ∙ kept)

  delete_by-Finished :
      (h : History) (g : Got Job)
      → api.get_job h (own_key site "-delete") ≡ g
      → is_ok (delete_by site bench g api h).0 ≡ true
      → Dropped site api h (delete_by site bench g api h).1
        ⊎ Skipped site api h (delete_by site bench g api h).1
  unfolding delete_by ◌>>=◌
  delete_by-Finished h (got j) g e = inl (finish_job-Dropped h j g e)
  delete_by-Finished h (failed x) g e =
      let (k, e', same) =
        if-ok-else (not (is_not_found x)) _ _ api h
          (Fails-raise (wrap "failed to get deletion job: " x)) e in
      let (missing, kept) = delete_with-root (get_mariadb_root_credentials site api h) e' in
      let silent =
        Emits-nothing (get_mariadb_root_credentials site) (get_mariadb_root_credentials-Silent site)
          api h in
      inr (
        rw g (ground arith),
        get_mariadb_root_credentials-missing site api h missing,
        same ∙ kept ∙ silent,
      )

delete_on-Finished :
    (site : Site) (r : NamespacedName) (api : Api) (h : History) (g : Got Bench)
    → api.get_bench h (in_namespace site r) ≡ g
    → is_ok (delete_on site g api h).0 ≡ true
    → FinishedAt site (some r) api h (delete_on site g api h).1
unfolding delete_on ◌>>=◌
delete_on-Finished site r api h (got b) g e = inr (delete_by-Finished site b api h _ refl e)
delete_on-Finished site r api h (failed x) g e =
    let (k, e', same) =
      if-ok-then (is_not_found x) _ _ api h
        (Fails-raise (wrap "failed to get referenced bench for deletion: " x)) e in
    inl (rw g k, same)

delete_of-Finished :
    (site : Site) (o : Option NamespacedName) (api : Api) (h : History)
    → is_ok (delete_of site o api h).0 ≡ true
    → FinishedAt site o api h (delete_of site o api h).1
unfolding delete_of ◌>>=◌
delete_of-Finished site none api h e = ground arith
delete_of-Finished site (some r) api h e = delete_on-Finished site r api h _ refl e

-- `deleteSite` ends without an error only in three cases: the bench is not there; the deletion job has
-- succeeded and was deleted, which is then the only write; or there is no job yet and something that
-- the root password is read from is not there: the root secret of a dedicated site, or the MariaDB of
-- a shared site, or the root secret of that MariaDB, even if the MariaDB itself is there. In the
-- first and the last case nothing is written.
pub delete_site-Finished :
    (site : Site) (api : Api) (h : History)
    → is_ok (delete_site site api h).0 ≡ true
    → Finished site api h (delete_site site api h).1
unfolding delete_site
delete_site-Finished site api h e = delete_of-Finished site site.spec.bench_ref api h e

-- A site in dedicated mode whose bench exists, that has no deletion job and whose secret with the
-- name of the site and `-mariadb-root` is missing is deleted with no job to drop its database.
pub delete_site-dedicated :
    (site : Site) (r : NamespacedName) (bench : Bench) (e f : Err) (api : Api) (h : History)
    → site.spec.bench_ref ≡ some r
    → site.spec.db_config.mode ≡ "dedicated"
    → api.get_bench h (in_namespace site r) ≡ got bench
    → api.get_job h (own_key site "-delete") ≡ failed e
    → is_not_found e ≡ true
    → api.get_secret h (own_key site "-mariadb-root") ≡ failed f
    → is_not_found f ≡ true
    → delete_site site api h ≡ (ok tt, h)
unfolding delete_site delete_of delete_on delete_by delete_with ◌>>=◌ get_mariadb_root_credentials
delete_site-dedicated site r bench e f api h br m b j ne s nf =
    rw (br, b, j, ne, get_mariadb_root_credentials-dedicated site f api h m s, nf) refl
