-- ===== src/Backup.antt =====
-- Backups: controllers/sitebackup_controller.go, less the labels and the time to live of its jobs.
-- Its `getBenchImage` is in Images.
pub mod OneTime
pub mod Reconcile
mod Examples
use Prim.Native.String.{◌++◌}
use mathlib.Core.List.{◌++◌ as ◌+++◌}
use frappe_operator.Common.{
  ℕ, String, Bool, true, false, ◌||◌, not, Option, none, some, List, [], ◌∷◌, str_eq, ltb,
  if◌then◌else◌,
}
use frappe_operator.Types.{NamespacedName, Site, Bench, BackupSpec, BackupStatus, Backup}
use frappe_operator.Kube.{
  Err, plain, Got, got, failed, Job, JobSpec, CronJobSpec, Kind, job_kind, cron_job_kind,
  create_job, create_cron_job, update_cron_job, update_backup_status, delete, update_finalizers,
  Api, M, pure, raise, ◌>>=◌, ◌>>◌, ask, perform, is_not_found,
}
use frappe_operator.Images.{get_backup_image}

unfoldable join_commas : List String → String
join_commas [] = ""
join_commas (x ∷ []) = x
join_commas (x ∷ xs) = x ++ ("," ++ join_commas xs)

flag : Bool → String → List String
flag b name = if b then name ∷ [] else []

option_value : String → String → List String
option_value value name = if str_eq value "" then [] else name ∷ value ∷ []

list_value : List String → String → List String
unfolding join_commas
list_value [] name = []
list_value (x ∷ xs) name = name ∷ join_commas (x ∷ xs) ∷ []

pub build_backup_args : BackupSpec → List String
unfolding flag option_value list_value
build_backup_args s =
    ("--site" ∷ s.site ∷ "backup" ∷ [])
    +++ (flag s.with_files "--with-files"
        +++ (flag s.compress "--compress"
            +++ (option_value s.backup_path "--backup-path"
                +++ (option_value s.backup_path_db "--backup-path-db"
                    +++ (option_value s.backup_path_conf "--backup-path-conf"
                        +++ (option_value s.backup_path_files "--backup-path-files"
                            +++ (option_value s.backup_path_private_files
                                  "--backup-path-private-files"
                                +++ (list_value s.exclude "--exclude"
                                    +++ (list_value s.include "--include"
                                        +++ (flag s.ignore_backup_conf "--ignore-backup-conf"
                                            +++ flag s.verbose "--verbose"))))))))))

abbrev pub backup_key : Backup → NamespacedName
backup_key b = record { name = b.name; namespace = b.namespace }

abbrev pub job_name : Backup → String
job_name b = b.name ++ "-backup"

abbrev pub job_key : Backup → NamespacedName
job_key b = record { name = job_name b; namespace = b.namespace }

pub build_backup_job : Backup → Bench → JobSpec
unfolding build_backup_args
build_backup_job b bench = record {
  container = "backup";
  image = get_backup_image bench.spec;
  args = build_backup_args b.spec;
  claim = bench.name ++ "-sites";
  secret = none;
  env = [];
}

pub build_backup_cron_job : Backup → Bench → CronJobSpec
unfolding build_backup_job
build_backup_cron_job b bench = record {
  schedule = b.spec.schedule;
  job = build_backup_job b bench;
}

-- The status that is written over the latest one.
abbrev pub status_over : BackupStatus → String → String → String → ℕ → BackupStatus
status_over latest phase message job now = record {
  phase = phase;
  last_backup = if str_eq phase "Succeeded" then some now else latest.last_backup;
  last_backup_job = job;
  message = message;
}

write_status : Backup → String → String → String → Got Backup → M (Unit {0})
write_status b phase message job (failed e) = raise e
write_status b phase message job (got latest) = ask (λ (api : Api) h. api.now h) >>= λ now.
    perform (λ e. e)
      (update_backup_status (backup_key b) (status_over latest.status phase message job now))

pub update_site_backup_status : Backup → String → String → String → M (Unit {0})
unfolding write_status
update_site_backup_status b phase message job =
    ask (λ (api : Api) h. api.get_backup h (backup_key b)) >>= write_status b phase message job

unless_phase : Backup → String → String → M (Unit {0})
unfolding update_site_backup_status
unless_phase b phase message =
    if str_eq b.status.phase phase
    then pure tt
    else update_site_backup_status b phase message (job_name b)

abbrev is_finished : Backup → Bool
is_finished b = str_eq b.status.phase "Succeeded" || str_eq b.status.phase "Failed"

one_time_by : Backup → Bench → Got Job → M (Unit {0})
unfolding unless_phase
one_time_by b bench (failed e) =
    if not (is_not_found e)
    then raise e
    else if is_finished b
    then pure tt
    else (perform (λ e. e) (create_job (job_key b) (build_backup_job b bench))
        >> update_site_backup_status b "Running" "Backup job created" (job_name b))
one_time_by b bench (got job) =
    if ltb 0 job.succeeded
    then unless_phase b "Succeeded" "Backup completed successfully"
    else if ltb 0 job.failures
    then unless_phase b "Failed" "Backup job failed"
    else unless_phase b "Running" "Backup job running"

pub reconcile_one_time_backup : Backup → Bench → M (Unit {0})
unfolding one_time_by
reconcile_one_time_backup b bench =
    ask (λ (api : Api) h. api.get_job h (job_key b)) >>= one_time_by b bench

scheduled_by : Backup → Bench → Got Bool → M (Unit {0})
unfolding unless_phase
scheduled_by b bench (failed e) =
    if is_not_found e
    then (perform (λ e. e) (create_cron_job (job_key b) (build_backup_cron_job b bench))
        >> update_site_backup_status b "Scheduled" "Scheduled backup created" (job_name b))
    else raise e
scheduled_by b bench (got same) =
    if same
    then unless_phase b "Scheduled" "Scheduled backup active"
    else (perform (λ e. e) (update_cron_job (job_key b) (build_backup_cron_job b bench))
        >> update_site_backup_status b "Scheduled" "Scheduled backup updated" (job_name b))

pub reconcile_scheduled_backup : Backup → Bench → M (Unit {0})
unfolding scheduled_by
reconcile_scheduled_backup b bench =
    ask (λ (api : Api) h. api.same_cron_job h (job_key b) (build_backup_cron_job b bench))
    >>= scheduled_by b bench

delete_found : {A : Type 0} → Kind → Backup → Got A → M (Unit {0})
delete_found kind b (got x) = perform (λ e. e) (delete kind (job_key b))
delete_found kind b (failed e) = if is_not_found e then pure tt else raise e

pub handle_finalizer : Backup → M (Unit {0})
unfolding delete_found
handle_finalizer b =
    if str_eq b.spec.schedule ""
    then (ask (λ (api : Api) h. api.get_job h (job_key b)) >>= delete_found job_kind b)
    else (ask (λ (api : Api) h. api.exists h cron_job_kind (job_key b))
        >>= delete_found cron_job_kind b)
