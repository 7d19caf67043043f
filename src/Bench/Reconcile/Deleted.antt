-- ===== src/Bench/Reconcile/Deleted.antt =====
-- The reconciliation of a bench that is being deleted, at its end.
use frappe_operator.Common.{◌≡◌, refl, false, ◌∷◌}
use frappe_operator.Types.{NamespacedName, Bench}
use frappe_operator.Kube.{
  got, claim_kind, delete, update_finalizers, update_bench_status as write_bench_status, History,
  Api,
}
use frappe_operator.Kube.Runs.{bind-Runs, ask-Runs}
use frappe_operator.Bench.{Setup, bench_key}
use frappe_operator.Bench.Finalizer.{
  has_bench_finalizer, drop_bench_finalizer, with_finalizers, proceed,
}
use frappe_operator.Bench.Finalizer.Deleted.{
  IsDeletable, handle_finalizer-Runs, drop_bench_finalizer-removes,
}
use frappe_operator.Bench.Reconcile.{provision, after_finalizer, reconcile_found, reconcile_bench}

found-deletes :
    (api : Api) (setup : Setup) (bench : Bench) (d : IsDeletable api bench) (h : History)
    → reconcile_found setup (got bench) api h
      ≡ provision setup (with_finalizers (drop_bench_finalizer bench.finalizers) bench) api (
          update_finalizers (bench_key bench "") (drop_bench_finalizer bench.finalizers)
          ∷ delete claim_kind (bench_key bench "-sites")
          ∷ write_bench_status (bench_key bench "") bench.status
          ∷ h)
unfolding reconcile_found after_finalizer
found-deletes api setup bench d h =
    bind-Runs api _ _ h _ (proceed _) _ (handle_finalizer-Runs api setup bench d h) refl

-- When a bench is being deleted, has its finalizer, no site of its namespace names it and its
-- workloads are gone or have no pods, the reconciliation deletes its claim and takes its finalizer
-- off, if the client accepts the writes, in this order. Then it goes on to provision the bench, as
-- if it was not being deleted.
pub reconcile_bench-deletes :
    (api : Api) (setup : Setup) (bench : Bench) (d : IsDeletable api bench) (key : NamespacedName)
    (h : History)
    → api.get_bench h key ≡ got bench
    → (has_bench_finalizer (drop_bench_finalizer bench.finalizers) ≡ false)
      × (reconcile_bench setup key api h
          ≡ provision setup (with_finalizers (drop_bench_finalizer bench.finalizers) bench) api (
              update_finalizers (bench_key bench "") (drop_bench_finalizer bench.finalizers)
              ∷ delete claim_kind (bench_key bench "-sites")
              ∷ write_bench_status (bench_key bench "") bench.status
              ∷ h))
unfolding reconcile_bench
reconcile_bench-deletes api setup bench d key h found = (
  drop_bench_finalizer-removes bench.finalizers,
  bind-Runs api _ _ h h (got bench) _ (ask-Runs api h _ _ found)
      (found-deletes api setup bench d h),
)
