-- ===== src/Bench/Workers/Scaling.antt =====
-- Who decides how many workers run.
use mathlib.Core.Bool.{false≢true}
use frappe_operator.Common.{
  ◌≡◌, refl, sym, ◌∙◌, ap, String, Bool, true, false, not, Option, none, some, str_eq,
  if◌then◌else◌, arith,
}
use frappe_operator.Common.Int.{ℤ, pos, negsuc}
use frappe_operator.Pods.{Deployed, Workload, create_deployment, update_deployment}
use frappe_operator.Types.{NamespacedName, Bench}
use frappe_operator.Kube.{
  Got, got, failed, Call, workload, deployment_kind, History, Api, M, pure, raise, is_not_found,
  ◌>>=◌,
}
use frappe_operator.Kube.Traces.{Emits-if, Emits-pure, emit_rules}
use frappe_operator.Kube.Ensures.{
  Ensures, Anything, Ensures-pure, Ensures-nil_dereference, Ensures-raise, Ensures-ask,
  Ensures-bind, Ensures-if, Ensures-Emits, Emits-perform,
}
use frappe_operator.Images.{bench_image}
use frappe_operator.Resources.Creation.{create_owned-Emits}
use frappe_operator.Workers.{WorkerType}
use frappe_operator.Bench.{Setup, bench_key, deployment_spec}
use frappe_operator.Bench.Workers.{
  worker_suffix, same_int, with_replicas, update_if, update_by, update_worker, create_worker,
  worker_by, worker_spec, ensure_worker_deployment,
}

-- How the replicas of a deployment change when it is updated.
abbrev pub ScaledBy : Bool → ℤ → Deployed → Deployed → Type 0
ScaledBy managed n old d =
    (managed ≡ true → d.replicas ≡ old.replicas) × (managed ≡ false → d.replicas ≡ some n)

-- The first number of replicas, and each later one.
abbrev pub WorkloadCall : Api → NamespacedName → Bool → ℤ → Workload → Type 0
WorkloadCall api key managed n (create_deployment s) = s.replicas ≡ some n
WorkloadCall api key managed n (update_deployment d) =
    (h : History) × (old : Deployed) × (api.get_deployed h deployment_kind key ≡ got old)
    × ScaledBy managed n old d
WorkloadCall api key managed n _ = ⊥

abbrev pub ScalingCall : Api → NamespacedName → Bool → ℤ → Call → Type 0
ScalingCall api key managed n (workload k w) = (k ≡ key) × WorkloadCall api key managed n w
ScalingCall api key managed n _ = ⊥

int_eq : (a b : ℤ) → same_int a b ≡ true → a ≡ b
int_eq (pos m) (pos n) p = ap pos (ground arith)
int_eq (pos m) (negsuc n) p = absurd (ground arith)
int_eq (negsuc m) (pos n) p = absurd (ground arith)
int_eq (negsuc m) (negsuc n) p = ap negsuc (ground arith)

-- The replicas are set to `n` unless KEDA manages them.
abbrev Rescaled : Bool → ℤ → Deployed → Deployed × Bool → Type 0
Rescaled managed n old r = ScaledBy managed n old r.0

module _ (api : Api) (P : Call → Type 0) (n : ℤ) (old d : Deployed) (changed : Bool) where
  kept : d.replicas ≡ old.replicas → ScaledBy true n old d
  kept p = ((λ t. p), λ f. absurd (false≢true (sym f)))

  set_to : d.replicas ≡ some n → ScaledBy false n old d
  set_to p = ((λ t. absurd (false≢true t)), λ f. p)

  with_replicas-Rescaled :
      (managed : Bool) (o : Option ℤ)
      → old.replicas ≡ o
      → d.replicas ≡ o
      → Ensures api P (Rescaled managed n old) (with_replicas managed n o (d, changed))
  unfolding with_replicas
  with_replicas-Rescaled true none p q = Ensures-pure (Rescaled true n old) _ (kept (q ∙ sym p))
  with_replicas-Rescaled true (some m) p q = Ensures-pure (Rescaled true n old) _ (kept (q ∙ sym p))
  with_replicas-Rescaled false none p q = Ensures-nil_dereference (Rescaled false n old)
  with_replicas-Rescaled false (some m) p q =
      Ensures-if (Rescaled false n old) (same_int m n) _ _
        (λ t. Ensures-pure (Rescaled false n old) _ (set_to (q ∙ ap some (int_eq m n t))))
        (λ f. Ensures-pure (Rescaled false n old) _ ((λ t. absurd (false≢true t)), λ x. refl))

abbrev replicas_after : Deployed × Bool → Option ℤ
replicas_after r = r.0.replicas

with_image-replicas :
    (image : String) (d : Deployed) (b : Bool)
    → replicas_after (if b then (d, false) else (record d { image = some image }, true))
      ≡ d.replicas
with_image-replicas image d true = refl
with_image-replicas image d false = refl

module _ (api : Api) (setup : Setup) (bench : Bench) (t : WorkerType) (managed : Bool) (n : ℤ) where
  abbrev Scales : {A : Type 0} → M A → Type 0
  Scales m = Ensures api (ScalingCall api (bench_key bench (worker_suffix t)) managed n) Anything m

  module _ (h : History) (old : Deployed)
      (read : api.get_deployed h deployment_kind (bench_key bench (worker_suffix t))
        ≡ got old) where
    update_if-Scales :
        (r : Deployed × Bool) → Rescaled managed n old r → Scales (update_if bench t r)
    unfolding update_if
    update_if-Scales (d, changed) s = Ensures-Emits (
        Emits-if changed _ (pure tt) (Emits-perform (λ e. e) _ (refl, (h, old, read, s)))
          (Emits-pure tt))

    update_by-Scales :
        (image : String) (o : Option String) → Scales (update_by bench t managed n old image o)
    unfolding update_by
    update_by-Scales image none = Ensures-nil_dereference Anything
    update_by-Scales image (some i) =
        Ensures-bind (Rescaled managed n old) Anything _ (update_if bench t)
          (with_replicas-Rescaled api _ n old _ _ managed old.replicas refl
            (with_image-replicas image old (str_eq i image)))
          update_if-Scales

    update_worker-Scales : (image : String) → Scales (update_worker bench t managed n old image)
    unfolding update_worker
    update_worker-Scales image = update_by-Scales image old.image

  read_image :
      {A : Type 0} (f : String → M A)
      → ((i : String) → Scales (f i))
      → Scales (bench_image bench >>= f)
  unfolding bench_image
  read_image f k =
      Ensures-bind Anything Anything (bench_image bench) f (Ensures-Emits (search emit_rules))
        (λ i q. k i)

  create_worker-Scales : Scales (create_worker setup bench t managed n)
  unfolding create_worker worker_spec deployment_spec
  create_worker-Scales = read_image _ (λ i. Ensures-ask Anything _ _ (λ h.
      Ensures-bind Anything Anything _ _ (Ensures-Emits (create_owned-Emits _ _ (refl, refl)))
        (λ u q. Ensures-pure Anything _ tt)))

  worker_by-Scales :
      (h : History) (g : Got Deployed)
      → api.get_deployed h deployment_kind (bench_key bench (worker_suffix t)) ≡ g
      → Scales (worker_by setup bench t managed n g)
  unfolding worker_by
  worker_by-Scales h (got d) p = read_image _ (λ i.
      Ensures-bind Anything Anything _ _ (update_worker-Scales h d p i)
        (λ u q. Ensures-pure Anything _ tt))
  worker_by-Scales h (failed e) p =
      Ensures-if Anything (not (is_not_found e)) (raise e) _ (λ k. Ensures-raise Anything e)
        (λ k. create_worker-Scales)

  -- The step for a kind of worker writes nothing but its Deployment. A new Deployment gets the number
  -- of replicas that is asked for. A Deployment that is there keeps its replicas, as they were read,
  -- if KEDA manages the worker, and else is written with the number that is asked for.
  pub ensure_worker_deployment-Scales :
      Ensures api
        (ScalingCall api (bench_key bench (worker_suffix t)) managed n)
        Anything
        (ensure_worker_deployment setup bench t managed n)
  unfolding ensure_worker_deployment
  ensure_worker_deployment-Scales =
      Ensures-ask Anything _ (worker_by setup bench t managed n) (λ h. worker_by-Scales h _ refl)
