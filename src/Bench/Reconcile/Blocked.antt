-- ===== src/Bench/Reconcile/Blocked.antt =====
-- The reconciliation of a bench that is being deleted while sites name it.
use frappe_operator.Common.{◌≡◌, refl, true, List, ◌∷◌, String}
use frappe_operator.Types.{NamespacedName, Site, Bench}
use frappe_operator.Kube.{Got, got, History, Api}
use frappe_operator.Kube.Ensures.{Ensures, Ensures-pure, Ensures-bind, Ensures-ask}
use frappe_operator.Bench.{Setup}
use frappe_operator.Bench.Finalizer.{Step, has_bench_finalizer, dependent_sites}
use frappe_operator.Bench.Finalizer.Blocked.{StatusCall, Waits, handle_finalizer-Waits}
use frappe_operator.Bench.Reconcile.{after_finalizer, reconcile_found, reconcile_bench}
use frappe_operator.Bench.Reconcile.Waiting.{InTenSeconds}

module _ (api : Api) (setup : Setup) (bench : Bench) where
  after_finalizer-Waits :
      (x : Step) → Waits x → Ensures api (StatusCall bench) InTenSeconds (after_finalizer setup x)
  unfolding after_finalizer
  after_finalizer-Waits x p = rw p (Ensures-pure InTenSeconds _ refl)

  found-waits :
      (g : Got Bench)
      → g ≡ got bench
      → bench.deleting ≡ true
      → has_bench_finalizer bench.finalizers ≡ true
      → (name : String) (names : List String) (sites : List Site)
      → dependent_sites bench.name sites ≡ name ∷ names
      → ((h : History) → api.sites_in h bench.namespace ≡ got sites)
      → Ensures api (StatusCall bench) InTenSeconds (reconcile_found setup g)
  unfolding reconcile_found
  found-waits g p deleting held name names sites named listed = rw p (
      Ensures-bind Waits InTenSeconds _ (after_finalizer setup)
        (handle_finalizer-Waits api setup bench deleting held name names sites named listed)
        after_finalizer-Waits)

  -- The reconciliation of a bench that is being deleted, with its finalizer, writes nothing but the
  -- bench's status, unchanged, while a site of its namespace names it: nothing is scaled down or
  -- deleted, and the finalizer stays. It ends, if not with an error, by asking to be called again in
  -- ten seconds.
  pub reconcile_bench-waits :
      (key : NamespacedName)
      → ((h : History) → api.get_bench h key ≡ got bench)
      → bench.deleting ≡ true
      → has_bench_finalizer bench.finalizers ≡ true
      → (name : String) (names : List String) (sites : List Site)
      → dependent_sites bench.name sites ≡ name ∷ names
      → ((h : History) → api.sites_in h bench.namespace ≡ got sites)
      → Ensures api (StatusCall bench) InTenSeconds (reconcile_bench setup key)
  unfolding reconcile_bench
  reconcile_bench-waits key found deleting held name names sites named listed =
      Ensures-ask InTenSeconds _ (reconcile_found setup)
        (λ h. found-waits _ (found h) deleting held name names sites named listed)
