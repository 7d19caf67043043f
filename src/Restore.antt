-- ===== src/Restore.antt =====
-- Restores: controllers/siterestore_controller.go. Its `getBenchImage` is in Images. The error of
-- `SetControllerReference` is dropped there, so that the call does nothing here.
mod Script
pub mod Writes
pub mod Progress
mod Examples
use Prim.Native.String.{◌++◌}
use mathlib.Core.List.{◌++◌ as ◌+++◌}
use frappe_operator.Common.{
  ℕ, String, Bool, ◌||◌, not, Option, none, some, List, [], ◌∷◌, str_eq, ltb, if◌then◌else◌,
}
use frappe_operator.Pods.{EnvVar, value, secret_key_ref}
use frappe_operator.Types.{
  NamespacedName, Bench, SecretKey, S3Source, BackupSource, RestoreSpec, RestoreStatus, Restore,
}
use frappe_operator.Kube.{
  Got, got, failed, Job, JobSpec, create_job, update_restore_status, Api, M, pure, raise, ◌>>=◌,
  ◌>>◌, ask, perform, is_not_found,
}
use frappe_operator.Images.{get_restore_image}
use Script.{build_restore_script}

abbrev pub restore_key : Restore → NamespacedName
restore_key r = record { name = r.name; namespace = r.namespace }

abbrev pub job_name : Restore → String
job_name r = r.name ++ "-restore"

abbrev pub job_key : Restore → NamespacedName
job_key r = record { name = job_name r; namespace = r.namespace }

abbrev plain_var : String → String → EnvVar
plain_var name v = record { name = name; source = value v }

abbrev secret_var : String → SecretKey → EnvVar
secret_var name k = record { name = name; source = secret_key_ref k.name k.key }

abbrev set_var : String → String → List EnvVar
set_var name v = if str_eq v "" then [] else plain_var name v ∷ []

s3_vars : String → Option S3Source → List EnvVar
s3_vars prefix none = []
s3_vars prefix (some s) =
    (plain_var (prefix ++ "_S3_BUCKET") s.bucket ∷ plain_var (prefix ++ "_S3_KEY") s.key ∷ [])
    +++ (set_var (prefix ++ "_S3_REGION") s.region
        +++ (set_var (prefix ++ "_S3_ENDPOINT") s.endpoint
            +++ (secret_var (prefix ++ "_AWS_ACCESS_KEY_ID") s.access_key_secret
                ∷ secret_var (prefix ++ "_AWS_SECRET_ACCESS_KEY") s.secret_key_secret
                ∷ [])))

abbrev source_vars : String → Option BackupSource → List EnvVar
source_vars prefix none = []
source_vars prefix (some s) = s3_vars prefix s.s3

abbrev password_var : Option SecretKey → List EnvVar
password_var none = []
password_var (some k) = secret_var "ADMIN_PASSWORD" k ∷ []

pub restore_env : RestoreSpec → List EnvVar
unfolding s3_vars
restore_env s =
    source_vars "DB" (some s.database_backup_source)
    +++ (source_vars "PUBLIC" s.public_files_source
        +++ (source_vars "PRIVATE" s.private_files_source
            +++ password_var s.admin_password_secret_ref))

pub build_restore_job : Restore → Bench → JobSpec
unfolding restore_env
build_restore_job r bench = record {
  container = "restore";
  image = get_restore_image bench.spec;
  args = build_restore_script r.spec ∷ [];
  claim = bench.name ++ "-sites";
  secret = none;
  env = restore_env r.spec;
}

abbrev pub is_final : String → Bool
is_final phase = str_eq phase "Succeeded" || str_eq phase "Failed"

-- The status that is written over the latest one.
abbrev pub status_over : RestoreStatus → String → String → String → ℕ → RestoreStatus
status_over latest phase message job now = record {
  phase = phase;
  completion_time = if is_final phase then some now else latest.completion_time;
  restore_job = job;
  message = message;
}

write_status : Restore → String → String → Got Restore → M (Unit {0})
write_status r phase message (failed e) = raise e
write_status r phase message (got latest) = ask (λ (api : Api) h. api.now h) >>= λ now.
    perform (λ e. e)
      (update_restore_status (restore_key r)
        (status_over latest.status phase message (job_name r) now))

pub update_status : Restore → String → String → M (Unit {0})
unfolding write_status
update_status r phase message =
    ask (λ (api : Api) h. api.get_restore h (restore_key r)) >>= write_status r phase message

by_job : Restore → Bench → Got Job → M (Unit {0})
unfolding update_status
by_job r bench (failed e) =
    if is_not_found e
    then (perform (λ e'. e') (create_job (job_key r) (build_restore_job r bench))
        >> update_status r "Running" "Restore job created")
    else raise e
by_job r bench (got job) =
    if ltb 0 job.succeeded
    then update_status r "Succeeded" "Restore completed successfully"
    else if ltb 0 job.failures
    then update_status r "Failed" "Restore job failed"
    else pure tt

on_bench : Restore → Got Bench → M (Unit {0})
unfolding by_job
on_bench r (failed e) = raise e
on_bench r (got bench) = ask (λ (api : Api) h. api.get_job h (job_key r)) >>= by_job r bench

-- The namespace of the reference is taken as it is.
for_restore : Got Restore → M (Unit {0})
unfolding on_bench
for_restore (failed e) = if is_not_found e then pure tt else raise e
for_restore (got r) =
    if is_final r.status.phase
    then pure tt
    else (ask (λ (api : Api) h. api.get_bench h r.spec.bench_ref) >>= on_bench r)

unfoldable pub reconcile_restore : NamespacedName → M (Unit {0})
unfolding for_restore
reconcile_restore req = ask (λ (api : Api) h. api.get_restore h req) >>= for_restore
