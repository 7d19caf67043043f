-- ===== src/Bench/Lifecycle/Waiting.antt =====
-- An init job that has not succeeded.
use frappe_operator.Common.{◌≡◌, refl, Bool, false, not, arith}
use frappe_operator.Types.{Bench}
use frappe_operator.Kube.{
  Got, got, failed, Job, JobSpec, Call, create_job, History, Api, raise, is_not_found,
}
use frappe_operator.Kube.Traces.{emit_rules}
use frappe_operator.Kube.Ensures.{
  Ensures, Anything, Ensures-pure, Ensures-raise, Ensures-bind, Ensures-ask, Ensures-if,
  Ensures-Emits,
}
use frappe_operator.Images.{bench_image}
use frappe_operator.Resources.Creation.{create_owned-Emits}
use frappe_operator.Site.Deletion.{Succeeded}
use frappe_operator.Bench.Lifecycle.{init_key, init_by, ensure_bench_initialized}

abbrev pub IsNot : Bool → Type 0
IsNot b = b ≡ false

module _ (api : Api) (P : Call → Type 0) (b : Bench)
    (created : (s : JobSpec) → P (create_job (init_key b) s)) where
  init_by-IsNot : (g : Got Job) → ¬ Succeeded g → Ensures api P IsNot (init_by b g)
  unfolding init_by bench_image
  init_by-IsNot (got job) unfinished = Ensures-pure IsNot _ (ground arith)
  init_by-IsNot (failed e) unfinished =
      Ensures-if IsNot (not (is_not_found e)) (raise e) _ (λ t. Ensures-raise IsNot e)
        (λ t. Ensures-bind Anything IsNot _ _ (Ensures-Emits (search emit_rules)) (λ image q.
          Ensures-bind Anything IsNot _ _ (Ensures-Emits (create_owned-Emits _ _ (created _)))
            (λ u r. Ensures-pure IsNot false refl)))

  pub ensure_bench_initialized-IsNot :
      ((h : History) → ¬ Succeeded (api.get_job h (init_key b)))
      → Ensures api P IsNot (ensure_bench_initialized b)
  unfolding ensure_bench_initialized
  ensure_bench_initialized-IsNot unfinished =
      Ensures-ask IsNot _ (init_by b) (λ h. init_by-IsNot _ (unfinished h))
