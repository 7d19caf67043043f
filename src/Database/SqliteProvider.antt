-- ===== src/Database/SqliteProvider.antt =====
-- The provider for SQLite, controllers/database/sqlite_provider.go: its file is made by Frappe.
use frappe_operator.Common.{Bool, true}
use frappe_operator.Types.{Site}
use frappe_operator.Kube.{M, pure}
use frappe_operator.Database.MariaDbProvider.{DatabaseInfo, DatabaseCredentials}

abbrev pub ensure_database : Site → M DatabaseInfo
ensure_database site = pure (record { host = ""; port = ""; name = "site"; provider = "sqlite" })

abbrev pub is_ready : Site → M Bool
is_ready site = pure true

abbrev pub get_credentials : Site → M DatabaseCredentials
get_credentials site = pure (record { username = ""; password = ""; secret_name = "" })

abbrev pub cleanup : Site → M (Unit {0})
cleanup site = pure tt
