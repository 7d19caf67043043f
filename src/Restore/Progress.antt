-- ===== src/Restore/Progress.antt =====
-- That a restore ends.
use frappe_operator.Common.{◌≡◌, String, Bool, none, ltb, if◌then◌else◌}
use frappe_operator.Types.{NamespacedName, Restore, RestoreStatus}
use frappe_operator.Kube.{got, Job, Call, History, Api}
use frappe_operator.Restore.{restore_key, job_name, job_key, status_over}

-- The phase of a job that has ended.
abbrev pub outcome : Job → String
outcome j = if ltb 0 j.succeeded then "Succeeded" else "Failed"

abbrev pub outcome_text : Job → String
outcome_text j =
    if ltb 0 j.succeeded then "Restore completed successfully" else "Restore job failed"

module _ (api : Api) (key : NamespacedName) (r : Restore) (j : Job) (h : History)
    (job : api.get_job h (job_key r) ≡ got j) (latest : Restore)
    (again : api.get_restore h (restore_key r) ≡ got latest)
    (accepts : (c : Call) → api.write h c ≡ none) where
  written_status : RestoreStatus
  written_status = status_over latest.status (outcome j) (outcome_text j) (job_name r) (api.now h)
