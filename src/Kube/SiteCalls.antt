-- ===== src/Kube/SiteCalls.antt =====
-- The calls that write the status or the finalizers of a site, and the others.
use frappe_operator.Common.{◌≡◌, ◌⊎◌, inl, inr, refl, String, List}
use frappe_operator.Types.{NamespacedName, SiteStatus}
use frappe_operator.Kube.{
  Call, update_site_status, update_finalizers, create_secret, update_secret, create_job,
  create_mariadb, create_database_cr, create_user_cr, create_grant_cr, create_ingress, create_route,
  create_claim, update_restore_status, update_bench_status, workload, create_cron_job,
  update_cron_job, update_backup_status, create, delete, scale_to_zero, patch_annotation,
}

-- A call that writes neither.
abbrev pub IsOther : Call → Type 0
IsOther (update_site_status k st) = ⊥
IsOther (update_finalizers k fs) = ⊥
IsOther _ = Unit

pub IsOther-cases :
    (c : Call)
    → IsOther c
      ⊎ (((k : NamespacedName) × (st : SiteStatus) × (c ≡ update_site_status k st))
          ⊎ ((k : NamespacedName) × (fs : List String) × (c ≡ update_finalizers k fs)))
IsOther-cases (update_site_status k st) = inr (inl (k, st, refl))
IsOther-cases (update_finalizers k fs) = inr (inr (k, fs, refl))
IsOther-cases (create_secret _ _) = inl tt
IsOther-cases (update_secret _ _) = inl tt
IsOther-cases (create_job _ _) = inl tt
IsOther-cases (create_mariadb _ _ _ _) = inl tt
IsOther-cases (create_database_cr _ _ _) = inl tt
IsOther-cases (create_user_cr _ _ _ _) = inl tt
IsOther-cases (create_grant_cr _ _ _ _) = inl tt
IsOther-cases (create_ingress _ _) = inl tt
IsOther-cases (create_route _ _) = inl tt
IsOther-cases (create_claim _ _) = inl tt
IsOther-cases (update_restore_status _ _) = inl tt
IsOther-cases (update_bench_status _ _) = inl tt
IsOther-cases (workload _ _) = inl tt
IsOther-cases (create_cron_job _ _) = inl tt
IsOther-cases (update_cron_job _ _) = inl tt
IsOther-cases (update_backup_status _ _) = inl tt
IsOther-cases (create _ _) = inl tt
IsOther-cases (delete _ _) = inl tt
IsOther-cases (scale_to_zero _ _) = inl tt
IsOther-cases (patch_annotation _ _ _) = inl tt

-- A predicate on the written statuses and one on the written finalizers; the other calls are free.
abbrev pub CallHas : (SiteStatus → Type 0) → (List String → Type 0) → Call → Type 0
CallHas Q R (update_site_status k st) = Q st
CallHas Q R (update_finalizers k fs) = R fs
CallHas Q R _ = Unit

pub IsOther→CallHas :
    (Q : SiteStatus → Type 0) (R : List String → Type 0) (c : Call) → IsOther c → CallHas Q R c
IsOther→CallHas Q R (update_site_status k st) p = absurd p
IsOther→CallHas Q R (update_finalizers k fs) p = absurd p
IsOther→CallHas Q R (create_secret _ _) p = tt
IsOther→CallHas Q R (update_secret _ _) p = tt
IsOther→CallHas Q R (create_job _ _) p = tt
IsOther→CallHas Q R (create_mariadb _ _ _ _) p = tt
IsOther→CallHas Q R (create_database_cr _ _ _) p = tt
IsOther→CallHas Q R (create_user_cr _ _ _ _) p = tt
IsOther→CallHas Q R (create_grant_cr _ _ _ _) p = tt
IsOther→CallHas Q R (create_ingress _ _) p = tt
IsOther→CallHas Q R (create_route _ _) p = tt
IsOther→CallHas Q R (create_claim _ _) p = tt
IsOther→CallHas Q R (update_restore_status _ _) p = tt
IsOther→CallHas Q R (update_bench_status _ _) p = tt
IsOther→CallHas Q R (workload _ _) p = tt
IsOther→CallHas Q R (create_cron_job _ _) p = tt
IsOther→CallHas Q R (update_cron_job _ _) p = tt
IsOther→CallHas Q R (update_backup_status _ _) p = tt
IsOther→CallHas Q R (create _ _) p = tt
IsOther→CallHas Q R (delete _ _) p = tt
IsOther→CallHas Q R (scale_to_zero _ _) p = tt
IsOther→CallHas Q R (patch_annotation _ _ _) p = tt

pub CallHas-mono :
    {Q Q' : SiteStatus → Type 0} {R R' : List String → Type 0}
    → ((st : SiteStatus) → Q st → Q' st)
    → ((fs : List String) → R fs → R' fs)
    → (c : Call) → CallHas Q R c
    → CallHas Q' R' c
CallHas-mono f g (update_site_status k st) p = f st p
CallHas-mono f g (update_finalizers k fs) p = g fs p
CallHas-mono f g (create_secret _ _) p = tt
CallHas-mono f g (update_secret _ _) p = tt
CallHas-mono f g (create_job _ _) p = tt
CallHas-mono f g (create_mariadb _ _ _ _) p = tt
CallHas-mono f g (create_database_cr _ _ _) p = tt
CallHas-mono f g (create_user_cr _ _ _ _) p = tt
CallHas-mono f g (create_grant_cr _ _ _ _) p = tt
CallHas-mono f g (create_ingress _ _) p = tt
CallHas-mono f g (create_route _ _) p = tt
CallHas-mono f g (create_claim _ _) p = tt
CallHas-mono f g (update_restore_status _ _) p = tt
CallHas-mono f g (update_bench_status _ _) p = tt
CallHas-mono f g (workload _ _) p = tt
CallHas-mono f g (create_cron_job _ _) p = tt
CallHas-mono f g (update_cron_job _ _) p = tt
CallHas-mono f g (update_backup_status _ _) p = tt
CallHas-mono f g (create _ _) p = tt
CallHas-mono f g (delete _ _) p = tt
CallHas-mono f g (scale_to_zero _ _) p = tt
CallHas-mono f g (patch_annotation _ _ _) p = tt
