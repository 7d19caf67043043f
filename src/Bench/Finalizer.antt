-- ===== src/Bench/Finalizer.antt =====
-- The deletion of a bench: `handleFinalizer` of controllers/frappebench_controller.go.
pub mod Writes
pub mod Blocked
pub mod Deleted
use Prim.Native.String.{◌++◌}
use mathlib.Core.List.{◌++◌ as ◌+++◌}
use frappe_operator.Common.{
  ℕ, String, Bool, true, false, ◌&&◌, not, Option, none, some, List, [], ◌∷◌, str_eq, if◌then◌else◌,
}
use frappe_operator.Common.Int.{ℤ, pos, lebℤ}
use frappe_operator.Pods.{Deployed}
use frappe_operator.Types.{NamespacedName, Site, Bench}
use frappe_operator.Kube.{
  Got, got, failed, Kind, deployment_kind, stateful_set_kind, claim_kind, scale_to_zero, delete,
  update_finalizers, History, Api, M, pure, raise, ◌>>=◌, ◌>>◌, ask, attempt, perform,
}
use frappe_operator.Bench.{Setup, bench_key}
use frappe_operator.Bench.Status.{update_status}

abbrev pub bench_finalizer : String
bench_finalizer = "vyogo.tech/bench-finalizer"

unfoldable pub has_bench_finalizer : List String → Bool
has_bench_finalizer [] = false
has_bench_finalizer (f ∷ fs) =
    let more = has_bench_finalizer fs in if str_eq f bench_finalizer then true else more

unfoldable pub drop_bench_finalizer : List String → List String
drop_bench_finalizer [] = []
drop_bench_finalizer (f ∷ fs) =
    let rest = drop_bench_finalizer fs in if str_eq f bench_finalizer then rest else f ∷ rest

abbrev pub refers_to : String → Option NamespacedName → Bool
refers_to name none = false
refers_to name (some r) = str_eq r.name name

-- The names of the sites, by the name in their reference only.
unfoldable pub dependent_sites : String → List Site → List String
dependent_sites name [] = []
dependent_sites name (site ∷ sites) =
    let rest = dependent_sites name sites in
    if refers_to name site.spec.bench_ref then site.name ∷ rest else rest

abbrev pub deployment_components : List String
deployment_components =
    "-gunicorn" ∷ "-nginx" ∷ "-socketio" ∷ "-scheduler" ∷ "-worker-default" ∷ "-worker-long"
    ∷ "-worker-short" ∷ []

abbrev pub redis_components : List String
redis_components = "-redis-cache" ∷ "-redis-queue" ∷ []

abbrev is_positive : Option ℤ → Bool
is_positive none = false
is_positive (some n) = not (lebℤ n (pos 0))

-- An error of the update is only logged, and one of the read passes for an object that is not there.
scale_down : Kind → NamespacedName → Got Deployed → M (Unit {0})
scale_down kind key (failed e) = pure tt
scale_down kind key (got d) =
    if is_positive d.replicas then (attempt (scale_to_zero kind key) >>= λ r. pure tt) else pure tt

pub scale_all_down : Kind → Bench → List String → M (Unit {0})
unfolding scale_down
scale_all_down kind bench [] = pure tt
scale_all_down kind bench (c ∷ cs) =
    ask (λ (api : Api) h. api.get_deployed h kind (bench_key bench c))
    >>= scale_down kind (bench_key bench c)
    >> scale_all_down kind bench cs

abbrev pub is_stopped : Got Deployed → Bool
is_stopped (failed e) = true
is_stopped (got d) = lebℤ d.status_replicas (pos 0) && lebℤ d.ready_replicas (pos 0)

pub all_stopped : Api → History → Kind → Bench → List String → Bool
all_stopped api h kind bench [] = true
all_stopped api h kind bench (c ∷ cs) =
    is_stopped (api.get_deployed h kind (bench_key bench c)) && all_stopped api h kind bench cs

-- How `Reconcile` goes on.
pub data Step : Type 0 where
  proceed : Bench → Step
  requeue : ℤ → Step

-- An error of the deletion is only logged.
delete_claim : Bench → Got (Unit {0}) → M (Unit {0})
delete_claim bench (failed e) = pure tt
delete_claim bench (got x) = attempt (delete claim_kind (bench_key bench "-sites")) >>= λ r. pure tt

abbrev pub with_finalizers : List String → Bench → Bench
with_finalizers fs bench = record bench { finalizers = fs }

set_finalizers : List String → Bench → M Step
set_finalizers fs bench =
    perform (λ e. e) (update_finalizers (bench_key bench "") fs)
    >> pure (proceed (with_finalizers fs bench))

-- After the scaling down: zero is a result that `Reconcile` takes for "go on".
clean_up : Bench → Bool → M Step
unfolding delete_claim set_finalizers
clean_up bench stopped =
    if not stopped
    then pure (requeue (pos 5000000000))
    else ask (λ (api : Api) h. api.exists h claim_kind (bench_key bench "-sites"))
      >>= delete_claim bench
      >> set_finalizers (drop_bench_finalizer bench.finalizers) bench

stop_all : Bench → M Step
unfolding clean_up
stop_all bench =
    scale_all_down deployment_kind bench deployment_components
    >> scale_all_down stateful_set_kind bench redis_components
    >> (ask (λ (api : Api) h.
          all_stopped api h deployment_kind bench deployment_components
          && all_stopped api h stateful_set_kind bench redis_components)
        >>= clean_up bench)

after_dependents : Setup → Bench → List String → M Step
unfolding stop_all
after_dependents setup bench [] = stop_all bench
after_dependents setup bench (s ∷ ss) =
    update_status setup bench >> pure (requeue (pos 10000000000))

with_sites : Setup → Bench → Got (List Site) → M Step
unfolding after_dependents dependent_sites
with_sites setup bench (failed e) = raise e
with_sites setup bench (got sites) = after_dependents setup bench (dependent_sites bench.name sites)

unfoldable pub handle_finalizer : Setup → Bench → M Step
unfolding with_sites set_finalizers has_bench_finalizer
handle_finalizer setup bench =
    if bench.deleting
    then (if has_bench_finalizer bench.finalizers
        then (update_status setup bench
            >> (ask (λ (api : Api) h. api.sites_in h bench.namespace) >>= with_sites setup bench))
        else pure (proceed bench))
    else if has_bench_finalizer bench.finalizers
    then pure (proceed bench)
    else set_finalizers (bench.finalizers +++ (bench_finalizer ∷ [])) bench
