-- ===== src/Kube/Retry.antt =====
-- `retry.RetryOnConflict` of client-go: a conflict is tried again while tries are left.
use frappe_operator.Common.{ℕ, zero, suc, if◌then◌else◌}
use frappe_operator.Kube.{Got, got, failed, M, pure, raise, ◌>>=◌, try, is_conflict}
use frappe_operator.Kube.Traces.{Emits, Emits-bind, Emits-try, Emits-pure, Emits-raise, Emits-if}
use frappe_operator.Kube.{Call}

again : M (Unit {0}) → Got (Unit {0}) → M (Unit {0})
again more (got x) = pure tt
again more (failed e) = if is_conflict e then more else raise e

unfoldable pub retry_on_conflict : ℕ → M (Unit {0}) → M (Unit {0})
unfolding again
retry_on_conflict zero m = m
retry_on_conflict (suc n) m = try m >>= again (retry_on_conflict n m)

module _ {P : Call → Type 0} (m : M (Unit {0})) (km : Emits P m) where
  again-Emits : (more : M (Unit {0})) → Emits P more → (g : Got (Unit {0})) → Emits P (again more g)
  unfolding again
  again-Emits more k (got x) = Emits-pure tt
  again-Emits more k (failed e) = Emits-if (is_conflict e) more (raise e) k (Emits-raise e)

  pub retry_on_conflict-Emits : (n : ℕ) → Emits P (retry_on_conflict n m)
  unfolding retry_on_conflict
  retry_on_conflict-Emits zero = km
  retry_on_conflict-Emits (suc n) =
      Emits-bind (try m) (again (retry_on_conflict n m)) (Emits-try m km)
        (again-Emits (retry_on_conflict n m) (retry_on_conflict-Emits n))
