-- ===== src/Bench/Workers/Panics.antt =====
-- When the step for the ScaledObject of a worker dereferences a nil pointer.
use mathlib.Core.Bool.{false≢true}
use frappe_operator.Common.{
  ◌≡◌, ◌↔◌, refl, sym, ◌∙◌, Bool, true, false, ◌&&◌, not, Bool-cases, inl, inr, Option, none, some,
  Option-cases, is_some,
}
use frappe_operator.Pods.{ScaledSpec, ScaledObject}
use frappe_operator.Types.{WorkerAutoscaling, Bench}
use frappe_operator.Kube.{
  Err, Got, got, failed, Result, ok, err, panic, History, Api, scaled_object_kind, check, ◌>>=◌,
  is_not_found,
}
use frappe_operator.Workers.{
  WorkerType, short_worker, long_worker, default_worker, configured_for, is_enabled, worker_config,
  scaled_spec,
}
use frappe_operator.Workers.Scaling.{
  CompleteIn, EnabledIn, scaled_spec-ScalesIn_iff, worker_config-EnabledIn_iff,
}
use frappe_operator.Bench.{bench_key}
use frappe_operator.Bench.Workers.{
  worker_suffix, scaled_object, keda_listed, is_keda_available, delete_found,
  delete_scaled_object_if_exists, put_scaled_object, build_scaled_object, ensure_scaled_object,
}

abbrev pub is_panic : {A : Type 0} → Result A → Bool
is_panic (ok a) = false
is_panic (err e) = false
is_panic panic = true

-- KEDA counts as there unless its resource type is not found.
abbrev pub KedaThere : Got (Unit {0}) → Type 0
KedaThere (got x) = Unit
KedaThere (failed e) = is_not_found e ≡ false

-- The one case: the default worker, with its autoscaling on, with KEDA, and with a number missing.
abbrev pub Panics : Api → History → Bench → WorkerType → Type 0
Panics api h bench short_worker = ⊥
Panics api h bench long_worker = ⊥
Panics api h bench default_worker =
    let c = configured_for default_worker bench.spec.worker_autoscaling in
    EnabledIn c × KedaThere (api.list_scaled_objects h) × (¬ CompleteIn c)

check-calm :
    (f : Err → Err) (o : Option Err) (api : Api) (h : History)
    → is_panic (check f o api h).0 ≡ false
unfolding ◌>>=◌
check-calm f none api h = refl
check-calm f (some e) api h = refl

module _ (bench : Bench) (t : WorkerType) (api : Api) where
  delete_found-calm :
      (g : Got (Unit {0})) (h : History) → is_panic (delete_found bench t g api h).0 ≡ false
  unfolding delete_found ◌>>=◌
  delete_found-calm (got x) h = check-calm _ _ api _
  delete_found-calm (failed e) h = elim (Bool-cases (is_not_found e)) [
    | inl y ↦ rw y refl
    | inr n ↦ rw n refl
  ]

  put-calm :
      (o : ScaledObject) (g : Got (Unit {0})) (h : History)
      → is_panic (put_scaled_object bench t o g api h).0 ≡ false
  unfolding put_scaled_object ◌>>=◌
  put-calm o (got x) h = check-calm _ _ api _
  put-calm o (failed e) h = elim (Bool-cases (is_not_found e)) [
    | inl y ↦ rw y (check-calm _ _ api _)
    | inr n ↦ rw n refl
  ]

  build-panics :
      (o : Option ScaledSpec) (h : History)
      → is_panic (build_scaled_object bench t o api h).0 ≡ not (is_some o)
  unfolding build_scaled_object ◌>>=◌
  build-panics none h = refl
  build-panics (some numbers) h =
      elim (Option-cases (api.set_controller_reference (bench_key bench (worker_suffix t)))) [
        | inl q ↦ rw q (
            put-calm (scaled_object bench t numbers)
              (api.exists h scaled_object_kind (bench_key bench (worker_suffix t))) h)
        | inr (e, q) ↦ rw q refl
      ]

  ensure-panics :
      (c : WorkerAutoscaling) (h : History)
      → is_panic (ensure_scaled_object bench t c api h).0
        ≡ is_enabled c && (keda_listed (api.list_scaled_objects h) && not (is_some (scaled_spec c)))
  unfolding ensure_scaled_object delete_scaled_object_if_exists is_keda_available ◌>>=◌
  ensure-panics c h = elim (Bool-cases (is_enabled c)) [
    | inr n ↦
        rw n (
          delete_found-calm (api.exists h scaled_object_kind (bench_key bench (worker_suffix t))) h)
    | inl y ↦ elim (Bool-cases (keda_listed (api.list_scaled_objects h))) [
      | inl k ↦ rw (y, k) (build-panics (scaled_spec c) h)
      | inr k ↦ rw (y, k) refl
    ]
  ]

and_false : (a b : Bool) → a && (b && false) ≡ false
and_false true true = refl
and_false true false = refl
and_false false b = refl

and_true : (a b : Bool) → a && b ≡ true → (a ≡ true) × (b ≡ true)
and_true true b e = (refl, e)
and_true false b e = absurd (false≢true e)

negated : (a : Bool) → not a ≡ true → a ≡ false
negated true e = absurd (false≢true e)
negated false e = refl

there-KedaThere : (g : Got (Unit {0})) → keda_listed g ≡ true → KedaThere g
there-KedaThere (got x) e = tt
there-KedaThere (failed x) e = negated (is_not_found x) e

KedaThere-there : (g : Got (Unit {0})) → KedaThere g → keda_listed g ≡ true
KedaThere-there (got x) k = refl
KedaThere-there (failed x) k = rw k refl

module _ (bench : Bench) (api : Api) (h : History) where
  abbrev panics : WorkerType → Bool
  panics t = is_panic (ensure_scaled_object bench t (worker_config bench.spec t) api h).0

  complete-calm :
      (t : WorkerType)
      → is_some (scaled_spec (worker_config bench.spec t)) ≡ true
      → panics t ≡ false
  complete-calm t e =
      ensure-panics bench t api (worker_config bench.spec t) h ∙ rw e (and_false _ _)

  calm_iff :
      (t : WorkerType)
      → is_some (scaled_spec (worker_config bench.spec t)) ≡ true
      → (panics t ≡ true) ↔ ⊥
  calm_iff t e = ((λ p. false≢true (sym (complete-calm t e) ∙ p)), (λ b. absurd b))

  default-panics : panics default_worker ≡ true → Panics api h bench default_worker
  default-panics e =
      let c = worker_config bench.spec default_worker in
      let (on, more) =
        and_true (is_enabled c) _ (sym (ensure-panics bench default_worker api c h) ∙ e) in
      let (keda, missing) = and_true (keda_listed (api.list_scaled_objects h)) _ more in
      (
        (worker_config-EnabledIn_iff bench.spec).0 on,
        there-KedaThere _ keda,
        λ k.
            false≢true
              (sym (negated _ missing) ∙ (scaled_spec-ScalesIn_iff bench.spec default_worker).1 k),
      )

  panics-default : Panics api h bench default_worker → panics default_worker ≡ true
  panics-default (on, keda, missing) =
      let c = worker_config bench.spec default_worker in
      elim (Bool-cases (is_some (scaled_spec c))) [
        | inl y ↦ absurd (missing ((scaled_spec-ScalesIn_iff bench.spec default_worker).0 y))
        | inr n ↦
            ensure-panics bench default_worker api c h
            ∙ rw
                (
                  (worker_config-EnabledIn_iff bench.spec).1 on,
                  KedaThere-there (api.list_scaled_objects h) keda,
                  n,
                )
                refl
      ]

  -- With the configuration that `ensureWorkers` makes of a bench, `ensureScaledObject` dereferences a
  -- nil pointer in one case only: for the default worker, if the bench switches its autoscaling on,
  -- KEDA's resource type is not reported as missing, and the bench does not set all five of the
  -- worker's minimum, maximum, cooldown period, polling interval and queue length. For the short and
  -- the long workers it never does.
  pub ensure_scaled_object-Panics_iff :
      (t : WorkerType)
      → (is_panic (ensure_scaled_object bench t (worker_config bench.spec t) api h).0 ≡ true)
        ↔ Panics api h bench t
  ensure_scaled_object-Panics_iff short_worker =
      calm_iff short_worker ((scaled_spec-ScalesIn_iff bench.spec short_worker).1 tt)
  ensure_scaled_object-Panics_iff long_worker =
      calm_iff long_worker ((scaled_spec-ScalesIn_iff bench.spec long_worker).1 tt)
  ensure_scaled_object-Panics_iff default_worker = (default-panics, panics-default)
