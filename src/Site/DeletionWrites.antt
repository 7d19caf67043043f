-- ===== src/Site/DeletionWrites.antt =====
-- What the deletion of a site writes.
use frappe_operator.Common.{◌≡◌, refl, String, Option, none, some, List}
use frappe_operator.Types.{NamespacedName, Site, Bench}
use frappe_operator.Kube.{
  Err, Got, got, failed, Secret, Job, job_kind, Call, create_secret, update_secret, create_job,
  delete, M,
}
use frappe_operator.Kube.Traces.{Emits, Emits-bind, Emits-mono, emit_rules}
use frappe_operator.Database.{own_key}
use frappe_operator.Database.RootCredentials.{get_mariadb_root_credentials-Silent}
use frappe_operator.Site.Jobs.{create_site_job-Emits}
use frappe_operator.Site.{
  keep_secret, overwrite_secret, create_deletion_job, delete_with, finish_job, delete_by, delete_on,
  delete_of, delete_site,
}

-- A write to the deletion secret or to the deletion job of a site.
abbrev pub DeletionCall : Site → Call → Type 0
DeletionCall site (create_secret k d) = k ≡ own_key site "-deletion-secret"
DeletionCall site (update_secret k d) = k ≡ own_key site "-deletion-secret"
DeletionCall site (create_job k s) = k ≡ own_key site "-delete"
DeletionCall site (delete job_kind k) = k ≡ own_key site "-delete"
DeletionCall site _ = ⊥

module _ (site : Site) where
  abbrev Writes : {A : Type 0} → M A → Type 0
  Writes m = Emits (DeletionCall site) m

  overwrite_secret-Writes :
      (d : List (String × String)) (g : Got Secret)
      → Writes (overwrite_secret (update_secret (own_key site "-deletion-secret") d) g)
  unfolding overwrite_secret
  overwrite_secret-Writes d (got s) = search emit_rules
  overwrite_secret-Writes d (failed e) = search emit_rules

  keep_secret-Writes :
      (d : List (String × String)) (o : Option Err)
      → Writes (
          keep_secret
            (own_key site "-deletion-secret")
            (update_secret (own_key site "-deletion-secret") d)
            o)
  unfolding keep_secret
  keep_secret-Writes d none = search emit_rules
  keep_secret-Writes d (some e) = search (emit_rules, overwrite_secret-Writes) depth 9

  create_deletion_job-Writes :
      (bench : Bench) (c : String × String) → Writes (create_deletion_job site bench c)
  unfolding create_deletion_job
  create_deletion_job-Writes bench c = Emits-bind _ _ (search emit_rules) (λ u.
      Emits-bind _ _ (search emit_rules) (λ made. Emits-bind _ _ (keep_secret-Writes _ made) (λ v.
        Emits-bind _ _
          (create_site_job-Emits _ site bench "-delete" "site-delete" "site_delete.sh"
            "-deletion-secret" (λ spec. refl))
          (λ w. search emit_rules))))

  delete_with-Writes :
      (bench : Bench) (g : Got (String × String)) → Writes (delete_with site bench g)
  unfolding delete_with
  delete_with-Writes bench (got c) = create_deletion_job-Writes bench c
  delete_with-Writes bench (failed e) = search emit_rules

  delete_by-Writes : (bench : Bench) (g : Got Job) → Writes (delete_by site bench g)
  unfolding delete_by finish_job
  delete_by-Writes bench (got job) = search emit_rules depth 9
  delete_by-Writes bench (failed e) =
      search
        (
          emit_rules,
          delete_with-Writes,
          Emits-mono (λ c p. absurd p) (get_mariadb_root_credentials-Silent site),
        )
        depth 9

  delete_on-Writes : (g : Got Bench) → Writes (delete_on site g)
  unfolding delete_on
  delete_on-Writes (failed e) = search emit_rules
  delete_on-Writes (got bench) = search (emit_rules, delete_by-Writes)

  delete_of-Writes : (o : Option NamespacedName) → Writes (delete_of site o)
  unfolding delete_of
  delete_of-Writes none = search emit_rules
  delete_of-Writes (some r) = search (emit_rules, delete_on-Writes)

  -- Whatever the cluster answers, the deletion of a site writes only its own deletion secret and its
  -- own deletion job.
  pub delete_site-DeletionCall : Emits (DeletionCall site) (delete_site site)
  unfolding delete_site
  delete_site-DeletionCall = delete_of-Writes site.spec.bench_ref
