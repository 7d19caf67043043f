-- ===== src/Bench/Status/Writes.antt =====
-- What the status updates of a bench write.
use mathlib.Core.Path.{subst}
use frappe_operator.Common.{
  ◌<◌, ℕ, arith, Bool-cases, str_ne, ◌≡◌, ◌⊎◌, inl, inr, refl, sym, ◌∙◌, ap, String, Bool, true,
  false, ◌&&◌, ◌||◌, not, List, str_eq, ltb, if◌then◌else◌,
}
use frappe_operator.Types.{NamespacedName, FpmRepository, Bench}
use frappe_operator.Kube.{
  Call, update_bench_status as write_bench_status, Got, got, failed, Job, Api, History, ◌>>=◌,
}
use frappe_operator.Kube.Traces.{Emits, emit_rules, Emits-raise, Grows-refl}
use frappe_operator.Kube.Retry.{retry_on_conflict-Emits}
use frappe_operator.Kube.Ensures.{Ensures, Anything, Ensures-ask, Ensures-Emits, Emits-perform}
use frappe_operator.Site.Deletion.{Succeeded}
use frappe_operator.Bench.{Setup, bench_key}
use frappe_operator.Bench.Lifecycle.{init_key}
use frappe_operator.Bench.Status.{
  put_status, try_status, update_status, update_worker_scaling_status, started_phase, phase_by,
  finished_status, update_bench_status,
}
use frappe_operator.Bench.Calls.{BenchCall, IsSame, InitDone, same_key}
use frappe_operator.Bench.Provisioning.{Allowed, Same}

-- A phase that this bench may be given.
abbrev pub MayBe : Api → Bench → String → Type 0
MayBe api bench phase = phase ≡ "Ready" → (bench.status.phase ≡ "Ready") ⊎ InitDone api bench

-- Updating the status of a bench writes that status and nothing else.
module _ {P : Call → Type 0} (b : Bench)
    (may : P (write_bench_status (bench_key b "") b.status)) where
  put_status-Emits : (g : Got Bench) → Emits P (put_status b g)
  unfolding put_status
  put_status-Emits (failed e) = Emits-raise e
  put_status-Emits (got latest) = Emits-perform (λ e. e) _ may

  try_status-Emits : Emits P (try_status b)
  unfolding try_status
  try_status-Emits = search (emit_rules, put_status-Emits)

  pub update_status-Emits : (setup : Setup) → Emits P (update_status setup b)
  unfolding update_status
  update_status-Emits setup = retry_on_conflict-Emits (try_status b) try_status-Emits setup.retries

pub update_status-Allowed :
    (api : Api) (bench b : Bench)
    → bench_key b "" ≡ bench_key bench ""
    → MayBe api bench b.status.phase
    → (setup : Setup) → Allowed api bench (update_status setup b)
update_status-Allowed api bench b own may = update_status-Emits b (own, may)

pub same-MayBe : (api : Api) (bench b : Bench) → IsSame bench b → MayBe api bench b.status.phase
same-MayBe api bench b s p = inl (sym s.phase ∙ p)

pub update_worker_scaling_status-Same :
    (api : Api) (bench b : Bench) → IsSame bench b → Same api bench (update_worker_scaling_status b)
unfolding update_worker_scaling_status ◌>>=◌
update_worker_scaling_status-Same api bench b s = record {
  writes = λ h. Grows-refl h;
  returns = λ h. record { name = s.name; namespace = s.namespace; phase = s.phase };
}

-- Only a bench that was ready stays so, whatever its job does.
started_phase-ready : (phase : String) → started_phase phase ≡ "Ready" → phase ≡ "Ready"
started_phase-ready phase p =
    elim (Bool-cases
      (str_eq phase "" || (not (str_eq phase "Provisioning") && not (str_eq phase "Ready")))) [
        | inl y ↦
            elim (str_ne "Provisioning" "Ready" refl
              (sym (ap (λ (t : Bool). if t then "Provisioning" else phase) y) ∙ p)) [ ]
        | inr n ↦ sym (ap (λ (t : Bool). if t then "Provisioning" else phase) n) ∙ p
      ]

ready_by :
    (j : Job) (phase : String) (t f : Bool)
    → (t ≡ true → 0 < j.succeeded)
    → (if t then "Ready" else if f then "Failed" else phase) ≡ "Ready"
    → (phase ≡ "Ready") ⊎ (0 < j.succeeded)
ready_by j phase true f k p = inr (k refl)
ready_by j phase false true k p = elim (str_ne "Failed" "Ready" refl p) [ ]
ready_by j phase false false k p = inl p

ltb→lt : (n : ℕ) → ltb 0 n ≡ true → 0 < n
ltb→lt n p = ground arith

pub phase_by-ready :
    (g : Got Job) (phase : String)
    → phase_by g (started_phase phase) ≡ "Ready"
    → (phase ≡ "Ready") ⊎ Succeeded g
unfolding phase_by
phase_by-ready (failed e) phase p = inl (started_phase-ready phase p)
phase_by-ready (got j) phase p =
    elim (ready_by j (started_phase phase) (ltb 0 j.succeeded) (ltb 0 j.failures)
      (λ q. ltb→lt j.succeeded q) p) [ inl q ↦ inl (started_phase-ready phase q) | inr q ↦ inr q ]

module _ (api : Api) (bench b : Bench) (s : IsSame bench b) where
  finished-MayBe :
      (h : History) (git : Bool) (repositories : List FpmRepository)
      → MayBe api bench (finished_status (api.get_job h (init_key b)) git repositories b).phase
  unfolding finished_status
  finished-MayBe h git repositories p =
      elim (phase_by-ready (api.get_job h (init_key b)) b.status.phase p) [
        | inl q ↦ inl (sym s.phase ∙ q)
        | inr q ↦ inr (
          h,
          subst (λ (k : NamespacedName). Succeeded (api.get_job h k)) (same_key bench b "-init" s)
              q,
        )
      ]

  pub update_bench_status-Ensures :
      (setup : Setup) (git : Bool) (repositories : List FpmRepository)
      → Ensures api (BenchCall api bench) Anything (update_bench_status setup git repositories b)
  unfolding update_bench_status
  update_bench_status-Ensures setup git repositories = Ensures-ask Anything _ _ (λ h.
      Ensures-Emits (
        update_status-Allowed api bench _ (same_key bench b "" s)
          (finished-MayBe h git repositories) setup))
