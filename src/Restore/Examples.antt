-- ===== src/Restore/Examples.antt =====
-- Tests of the restores, and their theorems at concrete inputs.
use Prim.Native.String.{◌++◌}
use frappe_operator.Common.{◌≡◌, refl, true, none, some, [], ◌∷◌}
use frappe_operator.Pods.{value, secret_key_ref}
use frappe_operator.Types.{NamespacedName, S3Source, RestoreSpec, RestoreStatus, Restore}
use frappe_operator.Kube.{got, Job, Api}
use frappe_operator.Kube.Reads.{EmitsFrom}
use frappe_operator.Restore.{s3_vars, restore_env, reconcile_restore}
use frappe_operator.Restore.Script.{restore_command}
use frappe_operator.Restore.Writes.{RestoreCall, reconcile_restore-RestoreCall}
use frappe_operator.Fixtures.{bench_cluster}

abbrev bucket : S3Source
bucket = record {
  bucket = "backups";
  key = "shop.sql.gz";
  region = "";
  endpoint = "https://s3.example.com";
  access_key_secret = record { name = "s3"; key = "access" };
  secret_key_secret = record { name = "s3"; key = "secret" };
}

abbrev shop_restore_spec : RestoreSpec
shop_restore_spec = record {
  site = "shop.example.com";
  bench_ref = record { name = "prod"; namespace = "web" };
  database_backup_source = record { s3 = some bucket; local_path = "" };
  public_files_source = none;
  private_files_source = some (record { s3 = none; local_path = "/backups/private.tar" });
  admin_password_secret_ref = none;
  force = true;
}

abbrev running : RestoreStatus
running = record {
  phase = "Running";
  completion_time = none;
  restore_job = "r-restore";
  message = "Restore job created";
}

abbrev shop_restore : Restore
shop_restore = record { name = "r"; namespace = "web"; spec = shop_restore_spec; status = running }

restore_command_test :
    restore_command shop_restore_spec
    ≡ "bench --site shop.example.com restore /tmp/restore/database.sql.gz"
      ++ " --with-private-files /tmp/restore/private.tar.gz --force"
unfolding restore_command
restore_command_test = refl

restore_env_test :
    restore_env shop_restore_spec
    ≡ record { name = "DB_S3_BUCKET"; source = value "backups" }
      ∷ record { name = "DB_S3_KEY"; source = value "shop.sql.gz" }
      ∷ record { name = "DB_S3_ENDPOINT"; source = value "https://s3.example.com" }
      ∷ record { name = "DB_AWS_ACCESS_KEY_ID"; source = secret_key_ref "s3" "access" }
      ∷ record { name = "DB_AWS_SECRET_ACCESS_KEY"; source = secret_key_ref "s3" "secret" }
      ∷ []
unfolding restore_env s3_vars
restore_env_test = refl

abbrev shop_restore_key : NamespacedName
shop_restore_key = record { name = "r"; namespace = "web" }

abbrev failed_job : Job
failed_job = record { succeeded = 0; failures = 1 }

abbrev restore_cluster : Api
restore_cluster = record bench_cluster {
  get_restore = λ h k. got shop_restore;
  get_job = λ h k. got failed_job;
}

reconcile_restore-RestoreCall_example :
    EmitsFrom restore_cluster
      (RestoreCall restore_cluster shop_restore_key)
      (reconcile_restore shop_restore_key)
reconcile_restore-RestoreCall_example =
    reconcile_restore-RestoreCall restore_cluster shop_restore_key
