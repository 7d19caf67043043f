-- ===== src/Bench/Reconcile/Settled.antt =====
-- The reconciliation of a bench that has all that it asks for.
use frappe_operator.Common.{◌≡◌, refl, true, false, none, ◌<◌, ◌∷◌, arith, ltb, Bool, String, List}
use frappe_operator.Pods.{Deployed}
use frappe_operator.Types.{NamespacedName, FpmRepository, BenchStatus, Bench}
use frappe_operator.Kube.{
  got, Job, Call, stateful_set_kind, claim_kind, update_bench_status as write_bench_status, History,
  Api, ok, ◌>>=◌,
}
use frappe_operator.Kube.Runs.{Runs, bind-Runs, pure-Runs, ask-Runs, then-Runs, else-Runs}
use frappe_operator.Site.Status.{done}
use frappe_operator.Storage.{claim_key, ensure_bench_storage}
use frappe_operator.Bench.{Setup, bench_key}
use frappe_operator.Bench.Lifecycle.{init_key, ensure_bench_initialized}
use frappe_operator.Bench.Finalizer.{has_bench_finalizer, handle_finalizer, proceed}
use frappe_operator.Bench.Redis.Settled.{redis_update, ensure_redis-Runs}
use frappe_operator.Bench.Status.{with_scaling}
use frappe_operator.Bench.Components.{
  ensure_gunicorn, ensure_nginx, ensure_socketio, ensure_scheduler,
}
use frappe_operator.Bench.Workers.{ensure_workers}
use frappe_operator.Bench.Status.Settled.{
  ReadyStatus, update_status-Runs, update_worker_scaling_status-Runs, update_bench_status-Runs,
}
use frappe_operator.Bench.Settled.{
  HasWorkloads, ensure_gunicorn-Runs, ensure_nginx-Runs, ensure_socketio-Runs,
  ensure_scheduler-Runs, ensure_workers-Runs,
}
use frappe_operator.Bench.Reconcile.{
  ensure_workloads, when_initialized, with_config, provision, after_finalizer, reconcile_found,
  reconcile_bench,
}

-- What the client answers: the claim, the init job, which has succeeded, and the Redis servers are
-- there, too, and every write is accepted.
pub record IsSettled (api : Api) (bench : Bench) : Type 0 where
  pub workloads : HasWorkloads api bench
  pub claim : (h : History) → api.exists h claim_kind (claim_key bench) ≡ got tt
  pub job : Job
  pub ran : (h : History) → api.get_job h (init_key bench) ≡ got job
  pub succeeded : 0 < job.succeeded
  pub server : Deployed
  pub servers :
      (h : History) (k : NamespacedName) → api.get_deployed h stateful_set_kind k ≡ got server
  pub owned : (k : NamespacedName) → api.set_controller_reference k ≡ none
  pub accepts : (h : History) (c : Call) → api.write h c ≡ none
  pub latest : Bench
  pub found : (h : History) → api.get_bench h (bench_key bench "") ≡ got latest

module _ (api : Api) (setup : Setup) (bench : Bench) (s : IsSettled api bench) where
  -- The writes for the Redis servers.
  abbrev pub after_redis : History → History
  after_redis h =
      redis_update setup bench "redis-queue" ∷ redis_update setup bench "redis-cache" ∷ h

  components-Runs :
      (h : History)
      → Runs api
          (ensure_gunicorn setup bench
            >>= ensure_nginx setup
            >>= ensure_socketio setup
            >>= ensure_scheduler setup
            >>= ensure_workers setup)
          h
          bench
          h
  components-Runs h =
      let w = s.workloads in
      bind-Runs api _ _ h h bench _
        (bind-Runs api _ _ h h bench _
          (bind-Runs api _ _ h h bench _
            (bind-Runs api _ _ h h bench _ (ensure_gunicorn-Runs api setup bench w h)
              (ensure_nginx-Runs api setup bench w h))
            (ensure_socketio-Runs api setup bench w h))
          (ensure_scheduler-Runs api setup bench w h))
        (ensure_workers-Runs api setup bench w h)

  claim-Runs : (h : History) → Runs api (ensure_bench_storage setup.is_quantity bench) h tt h
  unfolding ensure_bench_storage ◌>>=◌
  claim-Runs h = rw (s.claim h) refl

  initialized-Runs : (h : History) → Runs api (ensure_bench_initialized bench) h true h
  unfolding ensure_bench_initialized ◌>>=◌
  initialized-Runs h =
      let success = s.succeeded in
      let test : ltb 0 s.job.succeeded ≡ true = ground arith in rw (s.ran h, test) refl

  finalizer-Runs :
      (h : History)
      → bench.deleting ≡ false
      → has_bench_finalizer bench.finalizers ≡ true
      → Runs api (handle_finalizer setup bench) h (proceed bench) h
  unfolding handle_finalizer
  finalizer-Runs h alive held =
      else-Runs api _ _ _ h h _ alive
        (then-Runs api _ _ _ h h _ held (pure-Runs api h (proceed bench)))

  ensure_workloads-Runs :
      (git : Bool) (repositories : List FpmRepository) (h : History)
      → (st : BenchStatus) × ReadyStatus bench st
        × Runs api
            (ensure_workloads setup git repositories bench)
            h
            done
            (write_bench_status (bench_key bench "") st ∷ after_redis h)
  unfolding ensure_workloads
  ensure_workloads-Runs git repositories h =
      let w = s.workloads in
      let (m, scaling) = update_worker_scaling_status-Runs api bench (after_redis h) in
      let (st, ready, run) =
        update_bench_status-Runs api setup (with_scaling m bench) s.latest s.job s.found s.accepts
          s.ran s.succeeded git repositories (after_redis h) in
      (
        st,
        record {
          phase = ready.phase;
          observed_generation = ready.observed_generation;
          installed_apps = ready.installed_apps;
        },
        bind-Runs api _ _ h (after_redis h) tt _
            (ensure_redis-Runs api setup bench w.services s.server s.servers s.owned s.accepts h)
            (bind-Runs api _ _ _ _ (with_scaling m bench) _
              (bind-Runs api _ _ _ _ bench _ (components-Runs (after_redis h)) scaling)
              (bind-Runs api _ _ _ _ tt _ run (pure-Runs api _ done))),
      )

  -- The claim, the job and the workloads.
  with_config-Runs :
      (config : List (String × String)) (h : History)
      → (st : BenchStatus) × ReadyStatus bench st
        × Runs api
            (with_config setup bench config)
            h
            done
            (write_bench_status (bench_key bench "") st ∷ after_redis h)
  unfolding with_config when_initialized
  with_config-Runs config h =
      let (st, ready, run) = ensure_workloads-Runs _ _ h in
      (
        st,
        ready,
        bind-Runs api _ _ h h tt _ (claim-Runs h)
            (bind-Runs api _ _ h h true _ (initialized-Runs h) run),
      )

  found-Runs :
      (h : History)
      → bench.deleting ≡ false
      → has_bench_finalizer bench.finalizers ≡ true
      → (st : BenchStatus) × ReadyStatus bench st
        × Runs api (reconcile_found setup (got bench)) h done (
            write_bench_status (bench_key bench "") st
            ∷ after_redis (write_bench_status (bench_key bench "") bench.status ∷ h))
  unfolding reconcile_found after_finalizer provision
  found-Runs h alive held =
      let (st, ready, run) = with_config-Runs _ _ in
      (
        st,
        ready,
        bind-Runs api _ _ h h (proceed bench) _ (finalizer-Runs h alive held) (
            bind-Runs api _ _ h _ tt _
              (update_status-Runs api setup bench s.latest s.found s.accepts h)
              (bind-Runs api _ _ _ _ _ _ (ask-Runs api _ _ _ refl) run)),
      )

-- The reconciliation of a bench that is not being deleted, has its finalizer, its claim, an init job
-- that has succeeded and all its workloads as it asks for them, where KEDA is not installed and the
-- client accepts every write, ends without a delay. It writes the bench's status as it was read, the
-- update of the two Redis servers, and then a status whose phase is Ready, with the apps and the
-- generation of the bench, and nothing else.
pub reconcile_bench-settles :
    (api : Api) (setup : Setup) (bench : Bench) (s : IsSettled api bench) (key : NamespacedName)
    (h : History)
    → api.get_bench h key ≡ got bench
    → bench.deleting ≡ false
    → has_bench_finalizer bench.finalizers ≡ true
    → (st : BenchStatus) × ReadyStatus bench st
      × (reconcile_bench setup key api h ≡ (
        ok done,
        write_bench_status (bench_key bench "") st
            ∷ redis_update setup bench "redis-queue"
            ∷ redis_update setup bench "redis-cache"
            ∷ write_bench_status (bench_key bench "") bench.status
            ∷ h,
      ))
unfolding reconcile_bench
reconcile_bench-settles api setup bench s key h found alive held =
    let (st, ready, run) = found-Runs api setup bench s h alive held in
    (st, ready, bind-Runs api _ _ h h (got bench) _ (ask-Runs api h _ _ found) run)
