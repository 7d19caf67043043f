-- ===== src/Database/PostgresProvider.antt =====
-- The provider for PostgreSQL, controllers/database/postgres_provider.go, which `NewProvider` never
-- makes: every operation fails.
use frappe_operator.Common.{Bool}
use frappe_operator.Types.{Site}
use frappe_operator.Kube.{M, Err, plain, raise}
use frappe_operator.Database.MariaDbProvider.{DatabaseInfo, DatabaseCredentials}

abbrev not_implemented : Err
not_implemented = plain "PostgreSQL provider not yet implemented - planned for v1.1.0+"

abbrev pub ensure_database : Site → M DatabaseInfo
ensure_database site = raise not_implemented

abbrev pub is_ready : Site → M Bool
is_ready site = raise not_implemented

abbrev pub get_credentials : Site → M DatabaseCredentials
get_credentials site = raise not_implemented

abbrev pub cleanup : Site → M (Unit {0})
cleanup site = raise not_implemented
