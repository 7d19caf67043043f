-- ===== src/Database/MariaDbProvider/Reads.antt =====
-- The operations of the MariaDB provider that only read.
use frappe_operator.Common.{String, Bool, Option, none, some}
use frappe_operator.Types.{Site}
use frappe_operator.Kube.{Got, got, failed, Secret, Call, CustomResource, M}
use frappe_operator.Kube.Traces.{Emits, emit_rules}
use frappe_operator.Database.MariaDbProvider.{
  ready_then, is_ready, credentials_of, credentials_from, user_credentials, get_credentials,
}

module _ {P : Call → Type 0} where
  ready_then-Emits : (m : M Bool) → Emits P m → (g : Got CustomResource) → Emits P (ready_then m g)
  unfolding ready_then
  ready_then-Emits m k (failed e) = search emit_rules
  ready_then-Emits m k (got r) = search emit_rules

  pub is_ready-Emits : (site : Site) → Emits P (is_ready site)
  unfolding is_ready
  is_ready-Emits site = search (emit_rules, ready_then-Emits) depth 16

  credentials_of-Emits :
      (user key : String) (s : Secret) (o : Option String) → Emits P (credentials_of user key s o)
  unfolding credentials_of
  credentials_of-Emits user key s none = search emit_rules
  credentials_of-Emits user key s (some p) = search emit_rules

  credentials_from-Emits :
      (user key : String) (g : Got Secret) → Emits P (credentials_from user key g)
  unfolding credentials_from
  credentials_from-Emits user key (failed e) = search emit_rules
  credentials_from-Emits user key (got s) = credentials_of-Emits user key s _

  user_credentials-Emits :
      (site : Site) (g : Got CustomResource) → Emits P (user_credentials site g)
  unfolding user_credentials
  user_credentials-Emits site (failed e) = search emit_rules
  user_credentials-Emits site (got r) = search (emit_rules, credentials_from-Emits) depth 9

  pub get_credentials-Emits : (site : Site) → Emits P (get_credentials site)
  unfolding get_credentials
  get_credentials-Emits site = search (emit_rules, user_credentials-Emits)
