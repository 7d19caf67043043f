-- ===== src/Types/Backups.antt =====
-- The resources of sitebackup_types.go and siterestore_types.go in api/v1alpha1, with the fields that
-- the modelled code reads or writes. A Go pointer is an option.
use frappe_operator.Common.{ℕ, String, Bool, Option, List}
use frappe_operator.Types.Names.{NamespacedName}

pub record BackupSpec : Type 0 where
  pub site : String
  pub schedule : String
  pub with_files : Bool
  pub compress : Bool
  pub backup_path : String
  pub backup_path_db : String
  pub backup_path_conf : String
  pub backup_path_files : String
  pub backup_path_private_files : String
  pub exclude : List String
  pub include : List String
  pub ignore_backup_conf : Bool
  pub verbose : Bool

-- The time of the last backup is `none` while it is zero.
pub record BackupStatus : Type 0 where
  pub phase : String
  pub last_backup : Option ℕ
  pub last_backup_job : String
  pub message : String

pub record Backup : Type 0 where
  pub name : String
  pub namespace : String
  pub deleting : Bool
  pub finalizers : List String
  pub spec : BackupSpec
  pub status : BackupStatus

-- A key of a secret in the namespace of the object.
pub record SecretKey : Type 0 where
  pub name : String
  pub key : String

pub record S3Source : Type 0 where
  pub bucket : String
  pub key : String
  pub region : String
  pub endpoint : String
  pub access_key_secret : SecretKey
  pub secret_key_secret : SecretKey

pub record BackupSource : Type 0 where
  pub s3 : Option S3Source
  pub local_path : String

pub record RestoreSpec : Type 0 where
  pub site : String
  pub bench_ref : NamespacedName
  pub database_backup_source : BackupSource
  pub public_files_source : Option BackupSource
  pub private_files_source : Option BackupSource
  pub admin_password_secret_ref : Option SecretKey
  pub force : Bool

-- The completion time is `none` while it is nil.
pub record RestoreStatus : Type 0 where
  pub phase : String
  pub completion_time : Option ℕ
  pub restore_job : String
  pub message : String

pub record Restore : Type 0 where
  pub name : String
  pub namespace : String
  pub spec : RestoreSpec
  pub status : RestoreStatus
