-- ===== src/Backup/Reconcile/Writes.antt =====
-- All that the reconciliation of a backup writes.
use frappe_operator.Types.{Backup}
