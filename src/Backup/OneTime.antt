-- ===== src/Backup/OneTime.antt =====
-- What a one-time backup writes.
use frappe_operator.Common.{ℕ, ◌≡◌, ◌≢◌, refl, String, not, ◌<◌, str_eq, str_ne, eq_iff, arith, ltb}
use frappe_operator.Types.{Bench, Backup}
use frappe_operator.Kube.{
  Err, Got, got, failed, Job, Call, create_job, update_backup_status, History, Api, pure, raise,
  perform, check, is_not_found,
}
use frappe_operator.Kube.Traces.{
  Emits, Emits-if, Emits-raise, Emits-pure, Emits-bind, Emits-attempt, Emits-check, emit_rules,
}
use frappe_operator.Kube.Reads.{EmitsFrom, From-Emits, From-ask, From-if}
use frappe_operator.Backup.{
  backup_key, job_key, job_name, status_over, is_finished, build_backup_job, write_status,
  update_site_backup_status, unless_phase, one_time_by, reconcile_one_time_backup,
}

-- What a phase says of the job.
abbrev pub Agrees : String → Got Job → Type 0
Agrees phase (got job) =
    (phase ≡ "Succeeded" → 0 < job.succeeded)
    × (phase ≡ "Failed" → (job.succeeded ≡ 0) × (0 < job.failures))
Agrees phase (failed e) = phase ≡ "Running"

abbrev pub OneTimeCall : Api → Backup → Bench → Call → Type 0
OneTimeCall api b bench (create_job k s) =
    (k ≡ job_key b)
    × (s ≡ build_backup_job b bench)
    × (b.status.phase ≢ "Succeeded")
    × (b.status.phase ≢ "Failed")
OneTimeCall api b bench (update_backup_status k st) =
    (k ≡ backup_key b) × ((h : History) × Agrees st.phase (api.get_job h (job_key b)))
OneTimeCall api b bench _ = ⊥

module _ (api : Api) (b : Backup) (bench : Bench) where
  module _ (phase message job : String) (h : History)
      (agrees : Agrees phase (api.get_job h (job_key b))) where
    write-Emits :
        (g : Got Backup) → Emits (OneTimeCall api b bench) (write_status b phase message job g)
    unfolding write_status
    write-Emits (failed e) = search emit_rules
    write-Emits (got latest) =
        let written : (now : ℕ)
            → OneTimeCall api b bench (
                update_backup_status (backup_key b)
                  (status_over latest.status phase message job now)) =
          λ now. (refl, (h, agrees)) in
        search (emit_rules, written) depth 12

    update-Emits : Emits (OneTimeCall api b bench) (update_site_backup_status b phase message job)
    unfolding update_site_backup_status
    update-Emits = search (emit_rules, write-Emits) depth 12

  module _ (phase message : String) (h : History)
      (agrees : Agrees phase (api.get_job h (job_key b))) where
    unless-Emits : Emits (OneTimeCall api b bench) (unless_phase b phase message)
    unfolding unless_phase
    unless-Emits =
        Emits-if (str_eq b.status.phase phase) (pure tt) _ (Emits-pure tt)
          (update-Emits phase message (job_name b) h agrees)

  succeeded-Emits :
      (h : History) (job : Job)
      → api.get_job h (job_key b) ≡ got job
      → EmitsFrom api (OneTimeCall api b bench) (one_time_by b bench (got job))
  unfolding one_time_by
  succeeded-Emits h job found =
      From-if (ltb 0 job.succeeded) _ _
        (λ s. From-Emits (
          unless-Emits "Succeeded" "Backup completed successfully" h
            (rw found (λ e. ground arith, λ e. absurd (str_ne "Succeeded" "Failed" refl e)))))
        (λ s.
          From-if (ltb 0 job.failures) _ _
            (λ f. From-Emits (
              unless-Emits "Failed" "Backup job failed" h (
                rw found (
                  λ e. absurd (str_ne "Failed" "Succeeded" refl e),
                  λ e. (ground arith, ground arith),
                ))))
            (λ f. From-Emits (
              unless-Emits "Running" "Backup job running" h (
                rw found (
                  λ e. absurd (str_ne "Running" "Succeeded" refl e),
                  λ e. absurd (str_ne "Running" "Failed" refl e),
                )))))

  absent-Emits :
      (h : History) (x : Err)
      → api.get_job h (job_key b) ≡ failed x
      → EmitsFrom api (OneTimeCall api b bench) (one_time_by b bench (failed x))
  unfolding one_time_by
  absent-Emits h x gone =
      From-if (not (is_not_found x)) (raise x) _ (λ e. From-Emits (Emits-raise x))
        (λ e.
          From-if (is_finished b) (pure tt) _ (λ d. From-Emits (Emits-pure tt))
            (λ d.
              let created : OneTimeCall api b bench
                  (create_job (job_key b) (build_backup_job b bench)) =
                (
                  refl,
                  refl,
                  (λ k. ground (arith, eq_iff b.status.phase "Succeeded")),
                  (λ k. ground (arith, eq_iff b.status.phase "Failed")),
                ) in
              let told =
                update-Emits "Running" "Backup job created" (job_name b) h (rw gone refl) in
              From-Emits (
                Emits-bind (perform (λ e. e) (create_job (job_key b) (build_backup_job b bench)))
                  (λ u. update_site_backup_status b "Running" "Backup job created" (job_name b))
                  (Emits-bind _ (check (λ e. e)) (Emits-attempt _ created) (Emits-check (λ e. e)))
                  (λ u. told))))

  found-Emits :
      (h : History) (g : Got Job)
      → api.get_job h (job_key b) ≡ g
      → EmitsFrom api (OneTimeCall api b bench) (one_time_by b bench g)
  found-Emits h (got job) e = succeeded-Emits h job e
  found-Emits h (failed x) e = absent-Emits h x e

  -- A one-time backup writes nothing but its own job and its own status. The job is not created
  -- again for a backup whose phase is Succeeded or Failed. The phase Succeeded is written only if the
  -- job has succeeded, and Failed only if it has failed and not succeeded.
  pub reconcile_one_time_backup-OneTimeCall :
      EmitsFrom api (OneTimeCall api b bench) (reconcile_one_time_backup b bench)
  unfolding reconcile_one_time_backup
  reconcile_one_time_backup-OneTimeCall =
      From-ask _ (one_time_by b bench) (λ h. found-Emits h (api.get_job h (job_key b)) refl)
