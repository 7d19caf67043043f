-- ===== src/Bench/Reconcile/Writes.antt =====
-- All that the reconciliation of a bench writes.
use frappe_operator.Common.{◌≡◌}
use frappe_operator.Types.{NamespacedName, Bench}
use frappe_operator.Kube.{got, Call, History, Api, M}
use frappe_operator.Kube.Ensures.{Ensures, Anything}
use frappe_operator.Bench.{Setup}
use frappe_operator.Bench.Calls.{BenchCall}

module _ (api : Api) (setup : Setup) (bench : Bench) where
  abbrev Writes : {A : Type 0} → M A → Type 0
  Writes m = Ensures api (BenchCall api bench) Anything m

-- A call that the bench of the key may make, as it was read.
abbrev pub KeyCall : Api → NamespacedName → Call → Type 0
KeyCall api key c =
    (h : History) × (bench : Bench) × (api.get_bench h key ≡ got bench) × BenchCall api bench c
