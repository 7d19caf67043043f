-- ===== src/Backup/Reconcile/Calls.antt =====
-- The calls that a backup may make, while it is deleted and while it is not.
use mathlib.Core.List.{◌++◌ as ◌+++◌}
use frappe_operator.Common.{
  ◌≡◌, ◌≢◌, refl, String, Bool, true, false, Bool-cases, inl, inr, some, List, [], ◌∷◌, str_eq,
  if◌then◌else◌,
}
use frappe_operator.Types.{NamespacedName, Site, Bench, Backup}
use frappe_operator.Kube.{
  got, job_kind, cron_job_kind, Call, create_job, delete, update_finalizers, create_cron_job,
  update_cron_job, update_backup_status, History, Api,
}
use frappe_operator.Backup.{backup_key, job_key, build_backup_job, build_backup_cron_job}
use frappe_operator.Backup.Reconcile.{
  backup_finalizer, has_backup_finalizer, drop_backup_finalizer, bench_ref_of,
}

-- The bench of a backup, as it was read: that of the first site of the namespace with the name.
abbrev pub BenchOf : Api → NamespacedName → Backup → Bench → Type 0
BenchOf api req b bench =
    (h : History) × (h' : History) × (sites : List Site) × (r : NamespacedName) × (api.sites_in h
        req.namespace
      ≡ got sites)
    × (bench_ref_of b.spec.site sites ≡ some r)
    × (api.get_bench h' r ≡ got bench)

-- A call that a backup which is not being deleted may make, and one that is.
abbrev pub ActiveCall : Api → NamespacedName → Backup → Call → Type 0
ActiveCall api req b (create_job k s) =
    (k ≡ job_key b)
    × (b.spec.schedule ≡ "")
    × (b.status.phase ≢ "Succeeded")
    × (b.status.phase ≢ "Failed")
    × ((bench : Bench) × BenchOf api req b bench × (s ≡ build_backup_job b bench))
ActiveCall api req b (create_cron_job k s) =
    (k ≡ job_key b)
    × (b.spec.schedule ≢ "")
    × ((bench : Bench) × BenchOf api req b bench × (s ≡ build_backup_cron_job b bench))
ActiveCall api req b (update_cron_job k s) =
    (k ≡ job_key b)
    × (b.spec.schedule ≢ "")
    × ((bench : Bench) × BenchOf api req b bench × (s ≡ build_backup_cron_job b bench))
ActiveCall api req b (update_backup_status k st) = k ≡ backup_key b
ActiveCall api req b (update_finalizers k fs) =
    (k ≡ backup_key b) × (has_backup_finalizer fs ≡ true)
ActiveCall api req b _ = ⊥

abbrev pub LeavingCall : Backup → Call → Type 0
LeavingCall b (delete job_kind k) = (k ≡ job_key b) × (b.spec.schedule ≡ "")
LeavingCall b (delete cron_job_kind k) = (k ≡ job_key b) × (b.spec.schedule ≢ "")
LeavingCall b (update_finalizers k fs) =
    (k ≡ backup_key b) × (fs ≡ drop_backup_finalizer b.finalizers)
LeavingCall b _ = ⊥

abbrev pub BackupCall : Api → NamespacedName → Call → Type 0
BackupCall api req c =
    (h : History) × (b : Backup) × (api.get_backup h req ≡ got b)
    × (if b.deleting then LeavingCall b c else ActiveCall api req b c)

pub appended-has : (fs : List String) → has_backup_finalizer (fs +++ (backup_finalizer ∷ [])) ≡ true
unfolding has_backup_finalizer
appended-has [] = refl
appended-has (f ∷ fs) =
    let more = appended-has fs in
    elim (Bool-cases (str_eq f backup_finalizer)) [ inl y ↦ rw y refl | inr n ↦ rw n more ]

pub then_call : (t : Bool) (A B : Type 0) → t ≡ true → A → if t then A else B
then_call t A B p a = rw p a

pub else_call : (t : Bool) (A B : Type 0) → t ≡ false → B → if t then A else B
else_call t A B p b = rw p b
