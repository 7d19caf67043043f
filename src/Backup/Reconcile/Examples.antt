-- ===== src/Backup/Reconcile/Examples.antt =====
-- Tests of the backup reconciler.
use frappe_operator.Common.{◌≡◌, refl, str_eq, if◌then◌else◌, true, [], ◌∷◌}
use frappe_operator.Types.{Backup}
use frappe_operator.Kube.{got, failed, ok, err, update_finalizers, delete, job_kind, Api, ◌>>=◌}
use frappe_operator.Backup.{backup_key, job_key, handle_finalizer, delete_found}
use frappe_operator.Backup.Reconcile.{
  backup_finalizer, has_backup_finalizer, drop_backup_finalizer, bench_ref_of, for_bench, for_ref,
  for_sites, ensure_finalizer, release, for_backup, reconcile_backup,
}
use frappe_operator.Backup.Examples.{nightly, backup_cluster, saved_cluster}
use frappe_operator.Fixtures.{shop, prod, missing}

-- With the site and its bench there; the bench is looked up as the site names it.
abbrev full_cluster : Api
full_cluster = record backup_cluster {
  sites_in = λ h n. got (shop ∷ []);
  get_bench = λ h k. if str_eq k.namespace "" then failed missing else got prod;
}

unqualified_test :
    reconcile_backup (backup_key nightly) full_cluster []
    ≡ (err missing, update_finalizers (backup_key nightly) (backup_finalizer ∷ []) ∷ [])
unfolding reconcile_backup for_backup ensure_finalizer has_backup_finalizer for_sites bench_ref_of
    for_ref for_bench ◌>>=◌
unqualified_test = refl

abbrev leaving : Backup
leaving = record nightly { deleting = true; finalizers = "vyogo.tech/finalizer" ∷ [] }

abbrev leaving_cluster : Api
leaving_cluster = record saved_cluster { get_backup = λ h k. got leaving }

leaving_test :
    reconcile_backup (backup_key leaving) leaving_cluster []
    ≡ (ok tt, update_finalizers (backup_key leaving) [] ∷ delete job_kind (job_key leaving) ∷ [])
unfolding reconcile_backup for_backup release has_backup_finalizer drop_backup_finalizer
    handle_finalizer delete_found ◌>>=◌
leaving_test = refl
