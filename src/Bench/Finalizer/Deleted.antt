-- ===== src/Bench/Finalizer/Deleted.antt =====
-- The finalizer of a bench that no site names and whose workloads have stopped.
use frappe_operator.Common.{
  ◌≡◌, refl, String, Bool, true, false, Bool-cases, inl, inr, none, List, [], ◌∷◌, str_eq, arith,
}
use frappe_operator.Pods.{Deployed}
use frappe_operator.Types.{NamespacedName, Site, Bench}
use frappe_operator.Kube.{
  Got, got, failed, Call, Kind, deployment_kind, stateful_set_kind, claim_kind, delete,
  update_finalizers, update_bench_status as write_bench_status, History, Api, ◌>>=◌,
}
use frappe_operator.Kube.Runs.{Runs, bind-Runs, ask-Runs, pure-Runs, then-Runs}
use frappe_operator.Bench.{Setup, bench_key}
use frappe_operator.Bench.Status.Settled.{update_status-Runs}
use frappe_operator.Bench.Finalizer.{
  bench_finalizer, has_bench_finalizer, drop_bench_finalizer, dependent_sites,
  deployment_components, redis_components, is_positive, is_stopped, scale_down, scale_all_down,
  all_stopped, proceed, delete_claim, with_finalizers, set_finalizers, clean_up, stop_all,
  after_dependents, with_sites, handle_finalizer,
}

-- A workload that is gone, or that asks for no pods and has none.
abbrev pub IsIdle : Got Deployed → Type 0
IsIdle (failed e) = Unit
IsIdle (got d) = (is_positive d.replicas ≡ false) × (is_stopped (got d) ≡ true)

pub drop_bench_finalizer-removes :
    (fs : List String) → has_bench_finalizer (drop_bench_finalizer fs) ≡ false
unfolding has_bench_finalizer drop_bench_finalizer
drop_bench_finalizer-removes [] = refl
drop_bench_finalizer-removes (f ∷ fs) =
    let rest = drop_bench_finalizer-removes fs in
    elim (Bool-cases (str_eq f bench_finalizer)) [ inl y ↦ rw y rest | inr n ↦ rw n (rw n rest) ]

-- What the client answers about a bench that is being deleted.
pub record IsDeletable (api : Api) (bench : Bench) : Type 0 where
  pub deleting : bench.deleting ≡ true
  pub held : has_bench_finalizer bench.finalizers ≡ true
  pub sites : List Site
  pub listed : (h : History) → api.sites_in h bench.namespace ≡ got sites
  pub independent : dependent_sites bench.name sites ≡ []
  pub idle :
      (h : History) (kind : Kind) (suffix : String)
      → IsIdle (api.get_deployed h kind (bench_key bench suffix))
  pub claim : (h : History) → api.exists h claim_kind (bench_key bench "-sites") ≡ got tt
  pub accepts : (h : History) (c : Call) → api.write h c ≡ none
  pub latest : Bench
  pub found : (h : History) → api.get_bench h (bench_key bench "") ≡ got latest

module _ (api : Api) (setup : Setup) (bench : Bench) (d : IsDeletable api bench) where
  scale_down-Runs :
      (h : History) (kind : Kind) (key : NamespacedName) (g : Got Deployed)
      → IsIdle g
      → Runs api (scale_down kind key g) h tt h
  unfolding scale_down ◌>>=◌
  scale_down-Runs h kind key (failed e) q = refl
  scale_down-Runs h kind key (got w) q = rw q.0 refl

  scale_all_down-Runs :
      (h : History) (kind : Kind) (cs : List String)
      → Runs api (scale_all_down kind bench cs) h tt h
  unfolding scale_all_down
  scale_all_down-Runs h kind [] = pure-Runs api h tt
  scale_all_down-Runs h kind (c ∷ cs) =
      bind-Runs api _ _ h h tt _
        (bind-Runs api _ _ h h _ _ (ask-Runs api h _ _ refl)
          (scale_down-Runs h kind (bench_key bench c) _ (d.idle h kind c)))
        (scale_all_down-Runs h kind cs)

  idle-stopped : (g : Got Deployed) → IsIdle g → is_stopped g ≡ true
  idle-stopped (failed e) q = refl
  idle-stopped (got w) q = q.1

  all_stopped_now :
      (h : History) (kind : Kind) (cs : List String) → all_stopped api h kind bench cs ≡ true
  unfolding all_stopped
  all_stopped_now h kind [] = refl
  all_stopped_now h kind (c ∷ cs) =
      let here = idle-stopped (api.get_deployed h kind (bench_key bench c)) (d.idle h kind c) in
      let rest = all_stopped_now h kind cs in ground arith

  -- The bench after its finalizer is taken off.
  abbrev pub released : Bench
  released = with_finalizers (drop_bench_finalizer bench.finalizers) bench

  abbrev pub after_release : History → History
  after_release h =
      update_finalizers (bench_key bench "") (drop_bench_finalizer bench.finalizers)
      ∷ delete claim_kind (bench_key bench "-sites")
      ∷ h

  clean_up-Runs :
      (t : Bool) (h : History)
      → t ≡ true
      → Runs api (clean_up bench t) h (proceed released) (after_release h)
  unfolding clean_up delete_claim set_finalizers ◌>>=◌
  clean_up-Runs t h p =
      rw
        (
          p,
          d.claim h,
          d.accepts (delete claim_kind (bench_key bench "-sites") ∷ h)
              (update_finalizers (bench_key bench "") (drop_bench_finalizer bench.finalizers)),
        )
        refl

  stop_all-Runs : (h : History) → Runs api (stop_all bench) h (proceed released) (after_release h)
  unfolding stop_all
  stop_all-Runs h =
      bind-Runs api _ _ h h tt _
        (bind-Runs api _ _ h h tt _ (scale_all_down-Runs h _ _) (scale_all_down-Runs h _ _))
        (bind-Runs api _ _ h h _ _ (ask-Runs api h _ _ refl) (
          clean_up-Runs _ h (
            let ds = all_stopped_now h deployment_kind deployment_components in
            let rs = all_stopped_now h stateful_set_kind redis_components in ground arith)))

  none-Runs :
      (names : List String) (h : History)
      → names ≡ []
      → Runs api (after_dependents setup bench names) h (proceed released) (after_release h)
  unfolding after_dependents
  none-Runs names h p = rw p (stop_all-Runs h)

  named-Runs :
      (h : History)
      → Runs api (with_sites setup bench (got d.sites)) h (proceed released) (after_release h)
  unfolding with_sites
  named-Runs h = none-Runs _ h d.independent

  pub handle_finalizer-Runs :
      (h : History)
      → Runs api
          (handle_finalizer setup bench)
          h
          (proceed released)
          (after_release (write_bench_status (bench_key bench "") bench.status ∷ h))
  unfolding handle_finalizer
  handle_finalizer-Runs h = then-Runs api _ _ _ h _ _ d.deleting (
      then-Runs api _ _ _ h _ _ d.held (
        bind-Runs api _ _ h _ tt _ (update_status-Runs api setup bench d.latest d.found d.accepts h)
          (bind-Runs api _ _ _ _ (got d.sites) _ (ask-Runs api _ _ _ (d.listed _)) (named-Runs _))))
