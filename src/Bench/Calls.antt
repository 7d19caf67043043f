-- ===== src/Bench/Calls.antt =====
-- What a bench's reconciler may write, and what has been read before it does.
use Prim.Native.String.{◌++◌ as ◌+++◌}
use frappe_operator.Common.{
  ◌≡◌, ◌⊎◌, ◌∙◌, ap, String, Bool, true, false, ◌&&◌, ◌||◌, str_eq, List, [], ◌∷◌, ◌++◌,
}
use frappe_operator.Types.{NamespacedName, Site, Bench}
use frappe_operator.Kube.{
  got, deployment_kind, stateful_set_kind, claim_kind, scaled_object_kind, Call, create_secret,
  update_secret, create_job, create_mariadb, create_database_cr, create_user_cr, create_grant_cr,
  create_ingress, create_route, create, delete, scale_to_zero, update_finalizers,
  update_site_status, patch_annotation, create_claim, create_cron_job, update_cron_job,
  update_backup_status, update_restore_status, update_bench_status, workload, History, Api,
}
use frappe_operator.Site.Deletion.{Succeeded}
use frappe_operator.Storage.Writes.{StorageCall}
use frappe_operator.Storage.{bench_key as object_key}
use frappe_operator.Bench.{bench_key}
use frappe_operator.Bench.Finalizer.{
  has_bench_finalizer, dependent_sites, deployment_components, redis_components, all_stopped,
}

-- No site of the namespace named the bench.
pub record Independent (api : Api) (bench : Bench) : Type 0 where
  pub deleting : bench.deleting ≡ true
  pub at_sites : History
  pub sites : List Site
  pub listed : api.sites_in at_sites bench.namespace ≡ got sites
  pub independent : dependent_sites bench.name sites ≡ []

-- Then, after some calls, every workload that could be read had stopped.
pub record Cleared (api : Api) (bench : Bench) : Type 0 where
  pub independent : Independent api bench
  pub calls : List Call
  pub stopped :
      let h = calls ++ independent.at_sites in
      all_stopped api h deployment_kind bench deployment_components
        && all_stopped api h stateful_set_kind bench redis_components
      ≡ true

abbrev pub InitDone : Api → Bench → Type 0
InitDone api bench = (h : History) × Succeeded (api.get_job h (bench_key bench "-init"))

abbrev among : List String → String → Bool
among [] s = false
among (x ∷ xs) s = str_eq s x || among xs s

-- The ends of the names of a bench's workloads.
abbrev pub IsComponent : String → Type 0
IsComponent suffix =
    among
      ("-gunicorn" ∷ "-nginx" ∷ "-socketio" ∷ "-scheduler" ∷ "-worker-default" ∷ "-worker-long"
        ∷ "-worker-short" ∷ "-redis-cache" ∷ "-redis-queue" ∷ [])
      suffix
    ≡ true

-- The key of a workload of the bench.
abbrev pub ComponentKey : Bench → NamespacedName → Type 0
ComponentKey bench k =
    (suffix : String) × IsComponent suffix
    × (k ≡ record { name = bench.name +++ suffix; namespace = bench.namespace })

abbrev pub BenchCall : Api → Bench → Call → Type 0
BenchCall api bench (workload k w) = ComponentKey bench k
BenchCall api bench (create_job k s) = k ≡ bench_key bench "-init"
BenchCall api bench (create_claim k s) = k ≡ bench_key bench "-sites"
BenchCall api bench (patch_annotation k n v) =
    (k ≡ record { name = bench.name; namespace = bench.namespace })
    × (n ≡ "frappe.tech/storage-access-mode")
BenchCall api bench (delete scaled_object_kind k) = ComponentKey bench k
BenchCall api bench (delete claim_kind k) = (k ≡ bench_key bench "-sites") × Cleared api bench
BenchCall api bench (scale_to_zero kind k) = ComponentKey bench k × Independent api bench
BenchCall api bench (update_finalizers k fs) =
    (k ≡ bench_key bench "") × (has_bench_finalizer fs ≡ false → Cleared api bench)
BenchCall api bench (update_bench_status k st) =
    (k ≡ bench_key bench "")
    × (st.phase ≡ "Ready" → (bench.status.phase ≡ "Ready") ⊎ InitDone api bench)
BenchCall api bench _ = ⊥

-- What the steps keep of a bench while they change it.
pub record IsSame (bench b : Bench) : Type 0 where
  pub name : b.name ≡ bench.name
  pub namespace : b.namespace ≡ bench.namespace
  pub phase : b.status.phase ≡ bench.status.phase

pub same_key :
    (bench b : Bench) (suffix : String)
    → IsSame bench b
    → bench_key b suffix ≡ bench_key bench suffix
same_key bench b suffix s =
    ap (λ (n : String). record { name = n +++ suffix; namespace = b.namespace }) s.name
    ∙ ap (λ (n : String). record { name = bench.name +++ suffix; namespace = n }) s.namespace

same_object : (bench b : Bench) → IsSame bench b → object_key b ≡ object_key bench
same_object bench b s =
    ap (λ (n : String). record { name = n; namespace = b.namespace }) s.name
    ∙ ap (λ (n : String). record { name = bench.name; namespace = n }) s.namespace

pub component_key :
    (bench b : Bench) (suffix : String)
    → IsSame bench b
    → IsComponent suffix
    → ComponentKey bench (bench_key b suffix)
component_key bench b suffix s m = (suffix, m, same_key bench b suffix s)

pub StorageCall→BenchCall :
    (api : Api) (bench b : Bench)
    → IsSame bench b
    → (c : Call) → StorageCall api b c
    → BenchCall api bench c
StorageCall→BenchCall api bench b s (create_secret _ _) p = elim p [ ]
StorageCall→BenchCall api bench b s (update_secret _ _) p = elim p [ ]
StorageCall→BenchCall api bench b s (create_job _ _) p = elim p [ ]
StorageCall→BenchCall api bench b s (create_mariadb _ _ _ _) p = elim p [ ]
StorageCall→BenchCall api bench b s (create_database_cr _ _ _) p = elim p [ ]
StorageCall→BenchCall api bench b s (create_user_cr _ _ _ _) p = elim p [ ]
StorageCall→BenchCall api bench b s (create_grant_cr _ _ _ _) p = elim p [ ]
StorageCall→BenchCall api bench b s (create_ingress _ _) p = elim p [ ]
StorageCall→BenchCall api bench b s (create_route _ _) p = elim p [ ]
StorageCall→BenchCall api bench b s (create _ _) p = elim p [ ]
StorageCall→BenchCall api bench b s (delete _ _) p = elim p [ ]
StorageCall→BenchCall api bench b s (scale_to_zero _ _) p = elim p [ ]
StorageCall→BenchCall api bench b s (update_finalizers _ _) p = elim p [ ]
StorageCall→BenchCall api bench b s (update_site_status _ _) p = elim p [ ]
StorageCall→BenchCall api bench b s (patch_annotation k n v) p = (p.0 ∙ same_object bench b s, p.1)
StorageCall→BenchCall api bench b s (create_claim k c) p = p.0 ∙ same_key bench b "-sites" s
StorageCall→BenchCall api bench b s (create_cron_job _ _) p = elim p [ ]
StorageCall→BenchCall api bench b s (update_cron_job _ _) p = elim p [ ]
StorageCall→BenchCall api bench b s (update_backup_status _ _) p = elim p [ ]
StorageCall→BenchCall api bench b s (update_restore_status _ _) p = elim p [ ]
StorageCall→BenchCall api bench b s (update_bench_status _ _) p = elim p [ ]
StorageCall→BenchCall api bench b s (workload _ _) p = elim p [ ]
