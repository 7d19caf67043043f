-- ===== src/Bench/Lifecycle/Writes.antt =====
-- What the init job's step writes.
use frappe_operator.Common.{not}
use frappe_operator.Types.{Bench}
use frappe_operator.Kube.{Got, got, failed, Job, Api, raise, is_not_found}
use frappe_operator.Kube.Traces.{Emits-if, Emits-raise, Emits-pure, emit_rules}
use frappe_operator.Resources.Creation.{create_owned-Emits}
use frappe_operator.Images.{bench_image}
use frappe_operator.Bench.Lifecycle.{init_by, ensure_bench_initialized}
use frappe_operator.Bench.Calls.{IsSame, same_key}
use frappe_operator.Bench.Provisioning.{Allowed}

module _ (api : Api) (bench b : Bench) (s : IsSame bench b) where
  init_by-Allowed : (g : Got Job) → Allowed api bench (init_by b g)
  unfolding init_by bench_image
  init_by-Allowed (got job) = Emits-pure _
  init_by-Allowed (failed e) =
      let own = same_key bench b "-init" s in
      Emits-if (not (is_not_found e)) (raise e) _ (Emits-raise e)
        (search (emit_rules, create_owned-Emits, own) depth 14)

  pub ensure_bench_initialized-Allowed : Allowed api bench (ensure_bench_initialized b)
  unfolding ensure_bench_initialized
  ensure_bench_initialized-Allowed = search (emit_rules, init_by-Allowed)
