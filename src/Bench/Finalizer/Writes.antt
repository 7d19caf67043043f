-- ===== src/Bench/Finalizer/Writes.antt =====
-- What the deletion of a bench writes, and in which order.
use mathlib.Core.Path.{subst}
use mathlib.Core.Bool.{false≢true}
use mathlib.Core.List.{◌++◌ as ◌+++◌}
use frappe_operator.Common.{
  All, ◌≡◌, refl, sym, ◌∙◌, String, Bool, true, false, Bool-cases, inl, inr, List, [], ◌∷◌, str_eq,
}
use frappe_operator.Types.{NamespacedName, Site, Bench}
use frappe_operator.Pods.{Deployed}
use frappe_operator.Kube.{
  Got, got, failed, Kind, scale_to_zero, History, Api, M, pure, deployment_kind, stateful_set_kind,
  ◌>>◌,
}
use frappe_operator.Kube.Traces.{Emits-if, Emits-bind, Emits-attempt, Emits-pure, Emits-ask}
use frappe_operator.Kube.Ensures.{
  Ensures, Anything, Ensures-pure, Ensures-raise, Ensures-bind, Ensures-if, Ensures-Emits,
  Emits-perform, EnsuresAt, At-Ensures, At-bind, ask-At, Ensures-ask-At,
}
use frappe_operator.Bench.{Setup, bench_key}
use frappe_operator.Bench.Status.Writes.{update_status-Allowed}
use frappe_operator.Bench.Finalizer.{
  deployment_components, redis_components, bench_finalizer, has_bench_finalizer, scale_down,
  scale_all_down, Step, proceed, requeue, delete_claim, set_finalizers, clean_up, stop_all,
  after_dependents, with_sites, handle_finalizer,
}
use frappe_operator.Bench.Calls.{Independent, Cleared, IsComponent, ComponentKey, BenchCall, IsSame}
use frappe_operator.Bench.Provisioning.{Allowed}

-- The bench that a step goes on with.
abbrev pub Proceeds : Bench → Step → Type 0
Proceeds bench (proceed b) = IsSame bench b
Proceeds bench (requeue d) = Unit

abbrev same_as_itself : (bench : Bench) → IsSame bench bench
same_as_itself bench = record { name = refl; namespace = refl; phase = refl }

appended-has : (fs : List String) → has_bench_finalizer (fs +++ (bench_finalizer ∷ [])) ≡ true
unfolding has_bench_finalizer
appended-has [] = refl
appended-has (f ∷ fs) =
    let more = appended-has fs in
    elim (Bool-cases (str_eq f bench_finalizer)) [ inl y ↦ rw y | inr n ↦ rw n more ]

module _ (api : Api) (bench : Bench) where
  abbrev Steps : M Step → Type 0
  Steps m = Ensures api (BenchCall api bench) (Proceeds bench) m

  set_finalizers-Steps :
      (fs : List String)
      → (has_bench_finalizer fs ≡ false → Cleared api bench)
      → Steps (set_finalizers fs bench)
  unfolding set_finalizers
  set_finalizers-Steps fs k =
      Ensures-bind Anything (Proceeds bench) _ _
        (Ensures-Emits (Emits-perform (λ e. e) _ (refl, k)))
        (λ u q.
          Ensures-pure (Proceeds bench) _ (record { name = refl; namespace = refl; phase = refl }))

  delete_claim-Allowed :
      Cleared api bench → (g : Got (Unit {0})) → Allowed api bench (delete_claim bench g)
  unfolding delete_claim
  delete_claim-Allowed c (failed e) = Emits-pure tt
  delete_claim-Allowed c (got x) = Emits-bind _ _ (Emits-attempt _ (refl, c)) (λ r. Emits-pure tt)

  clean_up-Steps : (t : Bool) → (t ≡ true → Cleared api bench) → Steps (clean_up bench t)
  unfolding clean_up
  clean_up-Steps false k = Ensures-pure (Proceeds bench) _ tt
  clean_up-Steps true k =
      Ensures-bind Anything (Proceeds bench) _ _
        (Ensures-Emits
          (Emits-bind _ (delete_claim bench) (Emits-ask _) (delete_claim-Allowed (k refl))))
        (λ u q. set_finalizers-Steps _ (λ p. k refl))

  module _ (i : Independent api bench) where
    scale_down-Allowed :
        (kind : Kind) (key : NamespacedName) (g : Got Deployed)
        → ComponentKey bench key
        → Allowed api bench (scale_down kind key g)
    unfolding scale_down
    scale_down-Allowed kind key (failed e) own = Emits-pure tt
    scale_down-Allowed kind key (got d) own =
        Emits-if _ _ (pure tt)
          (Emits-bind _ _ (Emits-attempt (scale_to_zero kind key) (own, i)) (λ r. Emits-pure tt))
          (Emits-pure tt)

    scale_all_down-Allowed :
        (kind : Kind) (cs : List String)
        → All IsComponent cs
        → Allowed api bench (scale_all_down kind bench cs)
    unfolding scale_all_down
    scale_all_down-Allowed kind [] m = Emits-pure tt
    scale_all_down-Allowed kind (c ∷ cs) m =
        let more = scale_all_down-Allowed kind cs m.1 in
        Emits-bind _ (λ u. scale_all_down kind bench cs)
          (Emits-bind _ (scale_down kind (bench_key bench c)) (Emits-ask _)
            (λ g. scale_down-Allowed kind _ g (c, m.0, refl)))
          (λ u. more)

    all_down-Allowed : Allowed api bench (
        scale_all_down deployment_kind bench deployment_components
        >> scale_all_down stateful_set_kind bench redis_components)
    all_down-Allowed =
        Emits-bind _ _
          (scale_all_down-Allowed deployment_kind deployment_components
            (refl, (refl, (refl, (refl, (refl, (refl, (refl, tt))))))))
          (λ u. scale_all_down-Allowed stateful_set_kind redis_components (refl, (refl, tt)))

    -- The workloads are read after the sites.
    stop_all-StepsAt :
        EnsuresAt api (BenchCall api bench) (Proceeds bench) i.at_sites (stop_all bench)
    unfolding stop_all
    stop_all-StepsAt = At-bind (Proceeds bench) _ _ i.at_sites all_down-Allowed (λ u h g.
        ask-At (Proceeds bench) _ (clean_up bench) h (
          At-Ensures h (
            clean_up-Steps _
              (λ t. record { independent = i; calls = g.fresh; stopped = rw (← g.order) t }))))

  after_dependents-StepsAt :
      (setup : Setup) (h : History) (names : List String)
      → (names ≡ [] → (i : Independent api bench) × (i.at_sites ≡ h))
      → EnsuresAt api (BenchCall api bench) (Proceeds bench) h (after_dependents setup bench names)
  unfolding after_dependents
  after_dependents-StepsAt setup h [] k =
      let (i, e) = k refl in
      subst
        (λ (h : History). EnsuresAt api (BenchCall api bench) (Proceeds bench) h (stop_all bench)) e
        (stop_all-StepsAt i)
  after_dependents-StepsAt setup h (s ∷ ss) k = At-Ensures h (
      Ensures-bind Anything (Proceeds bench) _ _
        (Ensures-Emits (update_status-Allowed api bench bench refl (λ p. inl p) setup))
        (λ u q. Ensures-pure (Proceeds bench) _ tt))

  with_sites-StepsAt :
      (setup : Setup) (d : bench.deleting ≡ true) (h : History) (g : Got (List Site))
      → api.sites_in h bench.namespace ≡ g
      → EnsuresAt api (BenchCall api bench) (Proceeds bench) h (with_sites setup bench g)
  unfolding with_sites
  with_sites-StepsAt setup d h (failed e) p = At-Ensures h (Ensures-raise (Proceeds bench) e)
  with_sites-StepsAt setup d h (got sites) p = after_dependents-StepsAt setup h _ (λ n.
      (record { deleting = d; at_sites = h; sites = sites; listed = p; independent = n }, refl))

  pub handle_finalizer-Steps : (setup : Setup) → Steps (handle_finalizer setup bench)
  unfolding handle_finalizer
  handle_finalizer-Steps setup =
      Ensures-if (Proceeds bench) bench.deleting _ _
        (λ d.
          Ensures-if (Proceeds bench) (has_bench_finalizer bench.finalizers) _ _
            (λ t.
              Ensures-bind Anything (Proceeds bench) _ _
                (Ensures-Emits (update_status-Allowed api bench bench refl (λ p. inl p) setup))
                (λ u q.
                  Ensures-ask-At (Proceeds bench) _ _ (λ h. with_sites-StepsAt setup d h _ refl)))
            (λ t. Ensures-pure (Proceeds bench) _ (same_as_itself bench)))
        (λ d.
          Ensures-if (Proceeds bench) (has_bench_finalizer bench.finalizers) _ _
            (λ t. Ensures-pure (Proceeds bench) _ (same_as_itself bench))
            (λ t.
              set_finalizers-Steps _
                (λ p. elim (false≢true (sym p ∙ appended-has bench.finalizers)) [ ])))
