-- ===== src/Bench/Finalizer/Blocked.antt =====
-- The finalizer of a bench that sites name.
use mathlib.Core.Bool.{false≢true}
use frappe_operator.Common.{◌≡◌, refl, sym, ◌∙◌, true, List, ◌∷◌, String}
use frappe_operator.Common.Int.{pos}
use frappe_operator.Types.{Site, Bench}
use frappe_operator.Kube.{Got, got, Call, update_bench_status, History, Api}
use frappe_operator.Kube.Ensures.{
  Ensures, Anything, Ensures-pure, Ensures-bind, Ensures-ask, Ensures-Emits, Ensures-if,
}
use frappe_operator.Bench.{Setup, bench_key}
use frappe_operator.Bench.Status.Writes.{update_status-Emits}
use frappe_operator.Bench.Finalizer.{
  Step, requeue, has_bench_finalizer, dependent_sites, after_dependents, with_sites,
  handle_finalizer,
}

-- The bench's status as it is.
abbrev pub StatusCall : Bench → Call → Type 0
StatusCall bench (update_bench_status k st) = (k ≡ bench_key bench "") × (st ≡ bench.status)
StatusCall bench _ = ⊥

abbrev pub Waits : Step → Type 0
Waits x = x ≡ requeue (pos 10000000000)

module _ (api : Api) (setup : Setup) (bench : Bench) (deleting : bench.deleting ≡ true)
    (held : has_bench_finalizer bench.finalizers ≡ true) (name : String) (names : List String)
    (sites : List Site) (named : dependent_sites bench.name sites ≡ name ∷ names) where
  after_dependents-Waits :
      (ns : List String)
      → ns ≡ name ∷ names
      → Ensures api (StatusCall bench) Waits (after_dependents setup bench ns)
  unfolding after_dependents
  after_dependents-Waits ns p = rw p (
      Ensures-bind Anything Waits _ _ (Ensures-Emits (update_status-Emits bench (refl, refl) setup))
        (λ u q. Ensures-pure Waits _ refl))

  with_sites-Waits :
      (g : Got (List Site))
      → g ≡ got sites
      → Ensures api (StatusCall bench) Waits (with_sites setup bench g)
  unfolding with_sites
  with_sites-Waits g p = rw p (after_dependents-Waits _ named)

  pub handle_finalizer-Waits :
      ((h : History) → api.sites_in h bench.namespace ≡ got sites)
      → Ensures api (StatusCall bench) Waits (handle_finalizer setup bench)
  unfolding handle_finalizer
  handle_finalizer-Waits listed =
      Ensures-if Waits bench.deleting _ _
        (λ d.
          Ensures-if Waits (has_bench_finalizer bench.finalizers) _ _
            (λ t.
              Ensures-bind Anything Waits _ _
                (Ensures-Emits (update_status-Emits bench (refl, refl) setup))
                (λ u q.
                  Ensures-ask Waits _ (with_sites setup bench)
                    (λ h. with_sites-Waits _ (listed h))))
            (λ t. absurd (false≢true (sym t ∙ held))))
        (λ d. absurd (false≢true (sym d ∙ deleting)))
