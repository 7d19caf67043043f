-- ===== src/Bench/Reconcile/Waiting.antt =====
-- The reconciliation of a bench whose init job has not succeeded.
use mathlib.Core.Bool.{false≢true}
use frappe_operator.Common.{◌≡◌, refl, sym, Bool, true, false, List, String}
use frappe_operator.Common.Int.{pos}
use frappe_operator.Types.{FpmRepository, Bench}
use frappe_operator.Kube.{
  Call, create_secret, update_secret, create_job, create_mariadb, create_database_cr,
  create_user_cr, create_grant_cr, create_ingress, create_route, create, delete, scale_to_zero,
  update_finalizers, update_site_status, patch_annotation, create_claim, create_cron_job,
  update_cron_job, update_backup_status, update_restore_status, update_bench_status, workload,
  History, Api,
}
use frappe_operator.Kube.Reads.{From-mono}
use frappe_operator.Kube.Ensures.{
  Ensures, Anything, Ensures-pure, Ensures-bind, Ensures-ask, Ensures-Emits, Ensures-From,
}
use frappe_operator.Site.Status.{Requeue, after}
use frappe_operator.Site.Deletion.{Succeeded}
use frappe_operator.Storage.Writes.{StorageCall, ensure_bench_storage-StorageCall}
use frappe_operator.Bench.{Setup}
use frappe_operator.Bench.Lifecycle.{init_key}
use frappe_operator.Bench.Lifecycle.Waiting.{IsNot, ensure_bench_initialized-IsNot}
use frappe_operator.Bench.Status.Writes.{update_status-Emits}
use frappe_operator.Bench.Reconcile.{when_initialized, with_config, provision}

-- No workload, and no change of the phase.
abbrev pub IdleCall : Bench → Call → Type 0
IdleCall bench (workload k w) = ⊥
IdleCall bench (update_bench_status k st) = st.phase ≡ bench.status.phase
IdleCall bench _ = Unit

abbrev pub InTenSeconds : Requeue → Type 0
InTenSeconds r = r ≡ after (pos 10000000000)

storage-IdleCall :
    (api : Api) (bench : Bench) (c : Call) → StorageCall api bench c → IdleCall bench c
storage-IdleCall api bench (workload _ _) p = absurd p
storage-IdleCall api bench (update_bench_status _ _) p = absurd p
storage-IdleCall api bench (create_secret _ _) p = tt
storage-IdleCall api bench (update_secret _ _) p = tt
storage-IdleCall api bench (create_job _ _) p = tt
storage-IdleCall api bench (create_mariadb _ _ _ _) p = tt
storage-IdleCall api bench (create_database_cr _ _ _) p = tt
storage-IdleCall api bench (create_user_cr _ _ _ _) p = tt
storage-IdleCall api bench (create_grant_cr _ _ _ _) p = tt
storage-IdleCall api bench (create_ingress _ _) p = tt
storage-IdleCall api bench (create_route _ _) p = tt
storage-IdleCall api bench (create _ _) p = tt
storage-IdleCall api bench (delete _ _) p = tt
storage-IdleCall api bench (scale_to_zero _ _) p = tt
storage-IdleCall api bench (update_finalizers _ _) p = tt
storage-IdleCall api bench (update_site_status _ _) p = tt
storage-IdleCall api bench (patch_annotation _ _ _) p = tt
storage-IdleCall api bench (create_claim _ _) p = tt
storage-IdleCall api bench (create_cron_job _ _) p = tt
storage-IdleCall api bench (update_cron_job _ _) p = tt
storage-IdleCall api bench (update_backup_status _ _) p = tt
storage-IdleCall api bench (update_restore_status _ _) p = tt

module _ (api : Api) (setup : Setup) (bench : Bench)
    (unfinished : (h : History) → ¬ Succeeded (api.get_job h (init_key bench))) where
  when_initialized-waits :
      (git : Bool) (repositories : List FpmRepository) (ready : Bool)
      → IsNot ready
      → Ensures api
          (IdleCall bench)
          InTenSeconds
          (when_initialized setup git repositories bench ready)
  unfolding when_initialized
  when_initialized-waits git repositories true p = absurd (false≢true (sym p))
  when_initialized-waits git repositories false p = Ensures-pure InTenSeconds _ refl

  with_config-waits :
      (config : List (String × String))
      → Ensures api (IdleCall bench) InTenSeconds (with_config setup bench config)
  unfolding with_config
  with_config-waits config =
      Ensures-bind Anything InTenSeconds _ _
        (Ensures-From (
          From-mono (storage-IdleCall api bench)
            (ensure_bench_storage-StorageCall api bench setup.is_quantity)))
        (λ u q.
          Ensures-bind IsNot InTenSeconds _ _
            (ensure_bench_initialized-IsNot api (IdleCall bench) bench (λ s. tt) unfinished)
            (when_initialized-waits _ _))

  -- While its init job has not succeeded, be it missing, running or failed, the provisioning of a
  -- bench writes no workload and leaves the phase as it is, and ends, if not with an error, by
  -- asking to be called again in ten seconds.
  pub provision-waits : Ensures api (IdleCall bench) InTenSeconds (provision setup bench)
  unfolding provision
  provision-waits =
      Ensures-bind Anything InTenSeconds _ _ (Ensures-Emits (update_status-Emits bench refl setup))
        (λ u q. Ensures-ask InTenSeconds _ (with_config setup bench) (λ h. with_config-waits _))
