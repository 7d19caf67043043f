-- ===== src/Site/Init/Readiness.antt =====
-- When a site counts as initialised.
use frappe_operator.Common.{
  ◌<◌, ◌≡◌, refl, String, Bool, true, false, ltb, Bool-cases, inl, inr, arith,
}
use frappe_operator.Types.{Site, Bench}
use frappe_operator.Kube.{
  Got, got, failed, Result, ok, err, panic, Job, History, Api, continue, try_result, ◌>>=◌,
}
use frappe_operator.Database.{own_key}
use frappe_operator.Database.MariaDbProvider.{DatabaseInfo, DatabaseCredentials}
use frappe_operator.Site.Deletion.{Succeeded}
use frappe_operator.Site.Init.{
  inspect_job, create_init_job, init_by, not_ready, ensure_site_initialized,
}

-- The handler returned with no error that the site is ready.
abbrev pub reports_ready : Result (Site × Got Bool) → Bool
reports_ready (ok (site, got b)) = b
reports_ready (ok (site, failed e)) = false
reports_ready (err e) = false
reports_ready panic = false

inspect_job-ready :
    (site : Site) (job : Job) (api : Api) (h : History)
    → reports_ready (inspect_job site job api h).0 ≡ true
    → (0 < job.succeeded) × ((inspect_job site job api h).1 ≡ h)
unfolding inspect_job ◌>>=◌
inspect_job-ready site job api h e = elim (Bool-cases (ltb 0 job.succeeded)) [
  | inl some_done ↦ rw some_done (ground arith, refl)
  | inr none_done ↦ elim (Bool-cases (ltb 0 job.failures)) [
    | inl f ↦ ground arith
    | inr f ↦ ground arith
  ]
]

not_ready-ready :
    (site : Site) (r : Result (Unit {0}) × History) (api : Api)
    → reports_ready (continue (try_result r) (not_ready site) api).0 ≡ false
unfolding ◌>>=◌
not_ready-ready site (ok x, h) api = refl
not_ready-ready site (err e, h) api = refl
not_ready-ready site (panic, h) api = refl

module _ (site : Site) (bench : Bench) (domain : String) (info : DatabaseInfo)
    (creds : DatabaseCredentials) where
  init_by-ready :
      (g : Got Job) (api : Api) (h : History)
      → reports_ready (init_by site bench domain info creds g api h).0 ≡ true
      → Succeeded g × ((init_by site bench domain info creds g api h).1 ≡ h)
  unfolding init_by ◌>>=◌
  init_by-ready (got job) api h e = inspect_job-ready site job api h e
  init_by-ready (failed x) api h e =
      ground (arith, not_ready-ready site (create_init_job site bench domain info creds api h) api)

  -- A site counts as initialised only when its initialisation job is there and has succeeded, and
  -- then nothing is written.
  pub ensure_site_initialized-ready :
      (api : Api) (h : History)
      → reports_ready (ensure_site_initialized site bench domain info creds api h).0 ≡ true
      → Succeeded (api.get_job h (own_key site "-init"))
        × ((ensure_site_initialized site bench domain info creds api h).1 ≡ h)
  unfolding ensure_site_initialized ◌>>=◌
  ensure_site_initialized-ready api h e =
      init_by-ready (api.get_job h (own_key site "-init")) api h e
