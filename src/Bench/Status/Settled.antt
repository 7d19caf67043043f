-- ===== src/Bench/Status/Settled.antt =====
-- A status update that the client accepts.
use frappe_operator.Common.{◌≡◌, refl, String, Bool, true, none, map, List, ◌∷◌, ◌<◌, ltb, arith}
use frappe_operator.Types.{AppSource, FpmRepository, WorkerScalingStatus, BenchStatus, Bench}
use frappe_operator.Kube.{
  got, Job, Call, update_bench_status as write_bench_status, History, Api, ◌>>=◌,
}
use frappe_operator.Kube.Runs.{Runs, bind-Runs, ask-Runs, retry_on_conflict-Runs}
use frappe_operator.Bench.{Setup, bench_key}
use frappe_operator.Bench.Lifecycle.{init_key}
use frappe_operator.Bench.Status.{
  try_status, update_status, with_scaling, update_worker_scaling_status, phase_by, finished_status,
  update_bench_status,
}

pub update_status-Runs :
    (api : Api) (setup : Setup) (b latest : Bench)
    → ((h : History) → api.get_bench h (bench_key b "") ≡ got latest)
    → ((h : History) (c : Call) → api.write h c ≡ none)
    → (h : History)
    → Runs api (update_status setup b) h tt (write_bench_status (bench_key b "") b.status ∷ h)
unfolding update_status ◌>>=◌
update_status-Runs api setup b latest found accepts h =
    retry_on_conflict-Runs api setup.retries (try_status b) h _
      (rw (found h, accepts h (write_bench_status (bench_key b "") b.status)) refl)

pub update_worker_scaling_status-Runs :
    (api : Api) (b : Bench) (h : History)
    → (m : List (String × WorkerScalingStatus)) × Runs api
        (update_worker_scaling_status b)
        h
        (with_scaling m b)
        h
unfolding update_worker_scaling_status ◌>>=◌
update_worker_scaling_status-Runs api b h = (_, refl)

succeeded-phase : (j : Job) (phase : String) → 0 < j.succeeded → phase_by (got j) phase ≡ "Ready"
unfolding phase_by
succeeded-phase j phase p = let test : ltb 0 j.succeeded ≡ true = ground arith in rw test refl

-- The status of a bench whose init job has succeeded.
pub record ReadyStatus (b : Bench) (st : BenchStatus) : Type 0 where
  pub phase : st.phase ≡ "Ready"
  pub observed_generation : st.observed_generation ≡ b.generation
  pub installed_apps : st.installed_apps ≡ map (λ (a : AppSource). a.name) b.spec.apps

pub update_bench_status-Runs :
    (api : Api) (setup : Setup) (b latest : Bench) (j : Job)
    → ((h : History) → api.get_bench h (bench_key b "") ≡ got latest)
    → ((h : History) (c : Call) → api.write h c ≡ none)
    → ((h : History) → api.get_job h (init_key b) ≡ got j)
    → 0 < j.succeeded
    → (git : Bool) (repositories : List FpmRepository) (h : History)
    → (st : BenchStatus) × ReadyStatus b st
      × Runs api
          (update_bench_status setup git repositories b)
          h
          tt
          (write_bench_status (bench_key b "") st ∷ h)
unfolding update_bench_status finished_status
update_bench_status-Runs api setup b latest j found accepts job success git repositories h = (
  finished_status (got j) git repositories b,
  record { phase = succeeded-phase j _ success; observed_generation = refl; installed_apps = refl },
  bind-Runs api _ _ h h (got j) _ (ask-Runs api h _ _ (job h)) (
      update_status-Runs api setup
        (record b { status = finished_status (got j) git repositories b }) latest found accepts h),
)
