-- ===== src/Resources/Creation.antt =====
-- What creating a built object writes.
use frappe_operator.Types.{NamespacedName}
use frappe_operator.Kube.{Call}
use frappe_operator.Kube.Traces.{Emits, emit_rules}
use frappe_operator.Resources.{create_owned}

pub create_owned-Emits :
    {P : Call → Type 0} (key : NamespacedName) (call : Call)
    → P call
    → Emits P (create_owned key call)
unfolding create_owned
create_owned-Emits key call p = search emit_rules
