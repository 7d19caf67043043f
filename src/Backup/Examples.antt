-- ===== src/Backup/Examples.antt =====
-- Tests of the backups, and their theorem at a concrete input.
use frappe_operator.Common.{◌≡◌, refl, true, false, none, [], ◌∷◌}
use frappe_operator.Types.{Backup, BackupSpec}
use frappe_operator.Kube.{got, ok, Api, create_job, update_backup_status, delete, job_kind, ◌>>=◌}
use frappe_operator.Backup.{
  build_backup_args, flag, option_value, list_value, join_commas, backup_key, job_key,
  build_backup_job, status_over, reconcile_one_time_backup, one_time_by, unless_phase,
  update_site_backup_status, write_status, handle_finalizer, delete_found,
}
use frappe_operator.Fixtures.{prod, empty_cluster, dropped_cluster}

abbrev nightly_spec : BackupSpec
nightly_spec = record {
  site = "shop.example.com";
  schedule = "";
  with_files = true;
  compress = false;
  backup_path = "/backups";
  backup_path_db = "";
  backup_path_conf = "";
  backup_path_files = "";
  backup_path_private_files = "";
  exclude = "Error Log" ∷ "Version" ∷ [];
  include = [];
  ignore_backup_conf = false;
  verbose = true;
}

abbrev pub nightly : Backup
nightly = record {
  name = "nightly";
  namespace = "web";
  deleting = false;
  finalizers = [];
  spec = nightly_spec;
  status = record { phase = ""; last_backup = none; last_backup_job = ""; message = "" };
}

abbrev pub backup_cluster : Api
backup_cluster = record empty_cluster { get_backup = λ h k. got nightly }

abbrev pub saved_cluster : Api
saved_cluster = record dropped_cluster { get_backup = λ h k. got nightly }

args_test :
    build_backup_args nightly_spec
    ≡ "--site" ∷ "shop.example.com" ∷ "backup" ∷ "--with-files" ∷ "--backup-path" ∷ "/backups"
      ∷ "--exclude" ∷ "Error Log,Version" ∷ "--verbose" ∷ []
unfolding build_backup_args flag option_value list_value join_commas
args_test = refl

created_test : reconcile_one_time_backup nightly prod backup_cluster [] ≡ (
  ok tt,
  update_backup_status
        (backup_key nightly)
        (status_over nightly.status "Running" "Backup job created" "nightly-backup" 1)
      ∷ create_job (job_key nightly) (build_backup_job nightly prod)
      ∷ [],
)
unfolding reconcile_one_time_backup one_time_by update_site_backup_status write_status ◌>>=◌
created_test = refl

succeeded_test : reconcile_one_time_backup nightly prod saved_cluster [] ≡ (
  ok tt,
  update_backup_status
        (backup_key nightly)
        (status_over nightly.status "Succeeded" "Backup completed successfully" "nightly-backup" 1)
      ∷ [],
)
unfolding reconcile_one_time_backup one_time_by unless_phase update_site_backup_status write_status
    ◌>>=◌
succeeded_test = refl

deleted_test :
    handle_finalizer nightly saved_cluster [] ≡ (ok tt, delete job_kind (job_key nightly) ∷ [])
unfolding handle_finalizer delete_found ◌>>=◌
deleted_test = refl
