-- ===== src/Restore/Script.antt =====
-- The text that a restore job runs: `buildRestoreScript` of controllers/siterestore_controller.go.
use Prim.Native.String.{◌++◌}
use frappe_operator.Common.{String, Option, none, some, List, [], ◌∷◌, str_eq, if◌then◌else◌}
use frappe_operator.Types.{S3Source, BackupSource, RestoreSpec}

-- Lines, each with its end.
pub unlines : List String → String
unlines [] = ""
unlines (l ∷ ls) = l ++ ("\n" ++ unlines ls)

script_start : String
unfolding unlines
script_start = unlines (
    "#!/bin/bash" ∷ "set -e" ∷ "" ∷ "# Setup user for OpenShift compatibility"
    ∷ "if ! whoami &>/dev/null; then" ∷ "  export USER=frappe" ∷ "  export LOGNAME=frappe"
    ∷ "  if [ -w /etc/passwd ]; then"
    ∷ "    echo \"frappe:x:$(id -u):0:frappe user:/home/frappe:/sbin/nologin\" >> /etc/passwd"
    ∷ "  fi" ∷ "fi" ∷ "" ∷ "cd /home/frappe/frappe-bench" ∷ "mkdir -p /tmp/restore" ∷ [])

s3_download : String → String → String
unfolding unlines
s3_download target prefix = unlines (
    ""
    ∷ ("echo \"Downloading " ++ (target ++ " from S3...\""))
    ∷ "python3 << 'PYTHON_SCRIPT'"
    ∷ "import os, boto3, sys"
    ∷ ("bucket = os.getenv(\"" ++ (prefix ++ "_S3_BUCKET\")"))
    ∷ ("region = os.getenv(\"" ++ (prefix ++ "_S3_REGION\")"))
    ∷ ("endpoint = os.getenv(\"" ++ (prefix ++ "_S3_ENDPOINT\")"))
    ∷ ("access_key = os.getenv(\"" ++ (prefix ++ "_AWS_ACCESS_KEY_ID\")"))
    ∷ ("secret_key = os.getenv(\"" ++ (prefix ++ "_AWS_SECRET_ACCESS_KEY\")"))
    ∷ ("key = os.getenv(\"" ++ (prefix ++ "_S3_KEY\")"))
    ∷ ""
    ∷ "s3 = boto3.client('s3', "
    ∷ "    region_name=region if region else None,"
    ∷ "    endpoint_url=endpoint if endpoint else None,"
    ∷ "    aws_access_key_id=access_key,"
    ∷ "    aws_secret_access_key=secret_key)"
    ∷ ""
    ∷ ("print(f\"Downloading s3://{bucket}/{key} to " ++ (target ++ "...\")"))
    ∷ ("s3.download_file(bucket, key, \"" ++ (target ++ "\")"))
    ∷ "PYTHON_SCRIPT"
    ∷ [])

local_copy : String → String → String
unfolding unlines
local_copy path target = unlines (
    ""
    ∷ ("echo \"Using local backup path: " ++ (path ++ "\""))
    ∷ ("cp \"" ++ (path ++ ("\" \"" ++ (target ++ "\""))))
    ∷ [])

abbrev local_download : String → String → String
local_download path target = if str_eq path "" then "" else local_copy path target

fetch_by : String → String → String → Option S3Source → String
unfolding s3_download local_copy
fetch_by target prefix path none = local_download path target
fetch_by target prefix path (some s) = s3_download target prefix

fetch : String → String → Option BackupSource → String
unfolding fetch_by
fetch target prefix none = ""
fetch target prefix (some s) = fetch_by target prefix s.local_path s.s3

abbrev with_files : String → String → Option BackupSource → String
with_files option path none = ""
with_files option path (some s) = " " ++ (option ++ (" " ++ path))

abbrev db_path : String
db_path = "/tmp/restore/database.sql.gz"

abbrev public_path : String
public_path = "/tmp/restore/public.tar.gz"

abbrev private_path : String
private_path = "/tmp/restore/private.tar.gz"

unfoldable pub restore_command : RestoreSpec → String
restore_command s =
    "bench --site "
    ++ (s.site
        ++ (" restore "
            ++ (db_path
                ++ (with_files "--with-public-files" public_path s.public_files_source
                    ++ (with_files "--with-private-files" private_path s.private_files_source
                        ++ (if s.force then " --force" else ""))))))

script_end : String → String
unfolding unlines
script_end command = unlines (
    ""
    ∷ "echo \"Executing restore command...\""
    ∷ "# Handle admin password if provided via env"
    ∷ "if [ ! -z \"$ADMIN_PASSWORD\" ]; then"
    ∷ ("  " ++ (command ++ " --admin-password \"$ADMIN_PASSWORD\""))
    ∷ "else"
    ∷ ("  " ++ command)
    ∷ "fi"
    ∷ ""
    ∷ "echo \"Restore finished. Cleaning up...\""
    ∷ "rm -rf /tmp/restore"
    ∷ [])

pub build_restore_script : RestoreSpec → String
unfolding script_start fetch script_end restore_command
build_restore_script s =
    script_start
    ++ (fetch db_path "DB" (some s.database_backup_source)
        ++ (fetch public_path "PUBLIC" s.public_files_source
            ++ (fetch private_path "PRIVATE" s.private_files_source
                ++ script_end (restore_command s))))
