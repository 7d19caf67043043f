-- ===== src/Restore/Writes.antt =====
-- What a restore writes.
use frappe_operator.Common.{
  ℕ, ◌≡◌, refl, String, true, false, some, str_ne, arith, ltb, if◌then◌else◌,
}
use frappe_operator.Types.{NamespacedName, Bench, Restore, RestoreStatus}
use frappe_operator.Kube.{
  Err, Got, got, failed, Job, Call, create_job, update_restore_status, History, Api, pure, raise,
  is_not_found,
}
use frappe_operator.Kube.Traces.{Emits, Emits-if, Emits-raise, Emits-pure, Emits-bind, emit_rules}
use frappe_operator.Kube.Reads.{EmitsFrom, From-Emits, From-ask, From-if}
use frappe_operator.Kube.Ensures.{Emits-perform}
use frappe_operator.Backup.OneTime.{Agrees}
use frappe_operator.Restore.{
  restore_key, job_name, job_key, build_restore_job, is_final, status_over, write_status,
  update_status, by_job, on_bench, for_restore, reconcile_restore,
}

-- A status that a restore may be given: its phase is true of the job, and a final one has a time.
abbrev pub TrueStatus : Api → Restore → RestoreStatus → Type 0
TrueStatus api r st =
    ((h : History) × Agrees st.phase (api.get_job h (job_key r)))
    × (is_final st.phase ≡ true → (t : ℕ) × (st.completion_time ≡ some t))

abbrev pub CallOf : Api → Restore → Call → Type 0
CallOf api r (create_job k s) =
    (k ≡ job_key r)
    × ((h : History) × (bench : Bench) × (api.get_bench h r.spec.bench_ref ≡ got bench)
        × (s ≡ build_restore_job r bench))
CallOf api r (update_restore_status k st) = (k ≡ restore_key r) × TrueStatus api r st
CallOf api r _ = ⊥

-- The restore was not finished when it was read.
abbrev pub RestoreCall : Api → NamespacedName → Call → Type 0
RestoreCall api key c =
    (h : History) × (r : Restore) × (api.get_restore h key ≡ got r)
    × (is_final r.status.phase ≡ false)
    × CallOf api r c

module _ (api : Api) (key : NamespacedName) (at : History) (r : Restore)
    (read : api.get_restore at key ≡ got r) (unfinished : is_final r.status.phase ≡ false) where
  timed :
      (phase : String) (now : ℕ) (latest : RestoreStatus)
      → is_final phase ≡ true
      → (if is_final phase then some now else latest.completion_time) ≡ some now
  timed phase now latest p = rw p refl

  module _ (phase text : String) (h : History)
      (agrees : Agrees phase (api.get_job h (job_key r))) where
    write-Calls : (g : Got Restore) → Emits (RestoreCall api key) (write_status r phase text g)
    unfolding write_status
    write-Calls (failed e) = Emits-raise e
    write-Calls (got latest) =
        let written : (now : ℕ)
            → RestoreCall api key (
                update_restore_status (restore_key r)
                  (status_over latest.status phase text (job_name r) now)) =
          λ now. (
            at,
            r,
            read,
            unfinished,
            (refl, ((h, agrees), λ p. (now, timed phase now latest.status p))),
          ) in
        search (emit_rules, written) depth 12

    update-Calls : Emits (RestoreCall api key) (update_status r phase text)
    unfolding update_status
    update-Calls = search (emit_rules, write-Calls) depth 12

  job-Calls :
      (h : History) (j : Job) (bench : Bench)
      → api.get_job h (job_key r) ≡ got j
      → EmitsFrom api (RestoreCall api key) (by_job r bench (got j))
  unfolding by_job
  job-Calls h j bench p =
      From-if (ltb 0 j.succeeded) _ _
        (λ s. From-Emits (
          update-Calls "Succeeded" _ h
            (rw p (λ e. ground arith, λ e. absurd (str_ne "Succeeded" "Failed" refl e)))))
        (λ s.
          From-if (ltb 0 j.failures) _ _
            (λ f. From-Emits (
              update-Calls "Failed" _ h (
                rw p (
                  λ e. absurd (str_ne "Failed" "Succeeded" refl e),
                  λ e. (ground arith, ground arith),
                ))))
            (λ f. From-Emits (Emits-pure tt)))

  absent-Calls :
      (h h' : History) (e : Err) (bench : Bench)
      → api.get_job h (job_key r) ≡ failed e
      → api.get_bench h' r.spec.bench_ref ≡ got bench
      → EmitsFrom api (RestoreCall api key) (by_job r bench (failed e))
  unfolding by_job
  absent-Calls h h' e bench p b = From-Emits (
      Emits-if (is_not_found e) _ (raise e)
        (Emits-bind _ _
          (Emits-perform (λ e'. e') _ (at, r, read, unfinished, (refl, (h', bench, b, refl))))
          (λ u. update-Calls "Running" _ h (rw p refl)))
        (Emits-raise e))

  by_job-Calls :
      (h h' : History) (g : Got Job) (bench : Bench)
      → api.get_job h (job_key r) ≡ g
      → api.get_bench h' r.spec.bench_ref ≡ got bench
      → EmitsFrom api (RestoreCall api key) (by_job r bench g)
  by_job-Calls h h' (got j) bench p b = job-Calls h j bench p
  by_job-Calls h h' (failed e) bench p b = absent-Calls h h' e bench p b

  on_bench-Calls :
      (h' : History) (g : Got Bench)
      → api.get_bench h' r.spec.bench_ref ≡ g
      → EmitsFrom api (RestoreCall api key) (on_bench r g)
  unfolding on_bench
  on_bench-Calls h' (failed e) b = From-Emits (Emits-raise e)
  on_bench-Calls h' (got bench) b =
      From-ask _ (by_job r bench) (λ h. by_job-Calls h h' _ bench refl b)

for_restore-Calls :
    (api : Api) (key : NamespacedName) (at : History) (g : Got Restore)
    → api.get_restore at key ≡ g
    → EmitsFrom api (RestoreCall api key) (for_restore g)
unfolding for_restore
for_restore-Calls api key at (failed e) p =
    From-Emits (Emits-if (is_not_found e) (pure tt) (raise e) (Emits-pure tt) (Emits-raise e))
for_restore-Calls api key at (got r) p =
    From-if (is_final r.status.phase) (pure tt) _ (λ t. From-Emits (Emits-pure tt))
      (λ f. From-ask _ (on_bench r) (λ h. on_bench-Calls api key at r p f h _ refl))

-- The reconciliation of a restore writes nothing but its job and its status, and that only for a
-- restore that was not finished when it was read. The job is built for the bench that was read at
-- the reference. The phase Succeeded is written only if the job has succeeded, and Failed only if it
-- has failed and not succeeded, and each of them with a completion time.
pub reconcile_restore-RestoreCall :
    (api : Api) (key : NamespacedName) → EmitsFrom api (RestoreCall api key) (reconcile_restore key)
unfolding reconcile_restore
reconcile_restore-RestoreCall api key =
    From-ask _ for_restore (λ h. for_restore-Calls api key h _ refl)
