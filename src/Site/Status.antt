-- ===== src/Site/Status.antt =====
-- How the site reconciler writes the status, waits and fails: `updateStatus`, `failReconciliation` and
-- `patchRequeueAttempt` as controllers/frappesite_controller.go uses it.
pub mod Writes
pub mod Settled
use frappe_operator.Common.{ℕ, zero, suc, ◌+◌, String, Bool, Option, if◌then◌else◌}
use frappe_operator.Common.Int.{ℤ, pos}
use frappe_operator.Types.{NamespacedName, Site}
use frappe_operator.Backoff.{Conversion, exponential_backoff}
use frappe_operator.Requeue.{attempt_key, itoa, get_requeue_attempt}
use frappe_operator.Domain.{Service, ServiceKey}
use frappe_operator.Kube.{
  plain, Got, got, failed, update_site_status, patch_annotation, M, pure, raise, ◌>>=◌, ◌>>◌, ask,
  attempt, perform, try, is_conflict,
}
use frappe_operator.Kube.Retry.{retry_on_conflict}

-- What the reconciler is started with and what is no code of the repository: whether the cluster is
-- OpenShift, the conversion of delays, the services that the domain detector finds, and the number
-- of tries that the retry policy of client-go allows after the first.
pub record Setup : Type 0 where
  pub is_openshift : Bool
  pub convert : Conversion
  pub services : ServiceKey → Option Service
  pub retries : ℕ

-- `ctrl.Result`: done, or to be called again after a delay.
pub data Requeue : Type 0 where
  done : Requeue
  after : ℤ → Requeue

abbrev pub key_of : Site → NamespacedName
key_of site = record { name = site.name; namespace = site.namespace }

-- One try of `updateStatus`.
put_status : Site → Got Site → M (Unit {0})
put_status site (failed e) = raise e
put_status site (got latest) = perform (λ e. e) (update_site_status (key_of site) site.status)

try_status : Site → M (Unit {0})
unfolding put_status
try_status site = do latest ← ask (λ api h. api.get_site h (key_of site)); put_status site latest

unfoldable pub update_status : ℕ → Site → M (Unit {0})
unfolding try_status
update_status n site = retry_on_conflict n (try_status site)

-- `_ = r.updateStatus(ctx, site)`
pub ignore_status : Setup → Site → M (Unit {0})
ignore_status setup site = try (update_status setup.retries site) >>= λ r. pure tt

-- The delay before the next call, with the attempt written back.
pub wait : Setup → ℕ → Site → M Requeue
wait setup base site = do
  let n = get_requeue_attempt site
  attempt (patch_annotation (key_of site) attempt_key (itoa (n + 1))) >>= λ r.
      pure (after (exponential_backoff setup.convert base (pos n) 300000000000))

abbrev pub with_phase : String → Site → Site
with_phase phase site = record site { status = record site.status { phase = phase } }

pub pending_then_wait : Setup → String → ℕ → Site → M Requeue
unfolding ignore_status wait
pending_then_wait setup phase base site = do
  ignore_status setup (with_phase phase site)
  wait setup base (with_phase phase site)

-- `failReconciliation`
pub fail : Setup → String → Site → M Requeue
unfolding ignore_status
fail setup text site = do ignore_status setup (with_phase "Failed" site); raise (plain text)
