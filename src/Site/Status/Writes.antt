-- ===== src/Site/Status/Writes.antt =====
-- What the writing of the status, waiting and failing write.
use frappe_operator.Common.{ℕ, String}
use frappe_operator.Types.{Site}
use frappe_operator.Kube.{Got, got, failed, Call, update_site_status, patch_annotation}
use frappe_operator.Kube.Traces.{Emits, Emits-bind, emit_rules}
use frappe_operator.Kube.Retry.{retry_on_conflict-Emits}
use frappe_operator.Requeue.{attempt_key}
use frappe_operator.Site.Status.{
  Setup, key_of, put_status, try_status, update_status, ignore_status, wait, with_phase,
  pending_then_wait, fail,
}

module _ {P : Call → Type 0} (site : Site)
    (allowed : P (update_site_status (key_of site) site.status)) where
  put_status-Emits : (g : Got Site) → Emits P (put_status site g)
  unfolding put_status
  put_status-Emits (failed e) = search emit_rules
  put_status-Emits (got latest) = search emit_rules

  try_status-Emits : Emits P (try_status site)
  unfolding try_status
  try_status-Emits = search (emit_rules, put_status-Emits)

  pub update_status-Emits : (n : ℕ) → Emits P (update_status n site)
  unfolding update_status
  update_status-Emits = retry_on_conflict-Emits (try_status site) try_status-Emits

  pub ignore_status-Emits : (setup : Setup) → Emits P (ignore_status setup site)
  unfolding ignore_status
  ignore_status-Emits setup = search (emit_rules, update_status-Emits)

pub wait-Emits :
    {P : Call → Type 0} (setup : Setup) (base : ℕ) (site : Site)
    → ((v : String) → P (patch_annotation (key_of site) attempt_key v))
    → Emits P (wait setup base site)
unfolding wait
wait-Emits setup base site p = search emit_rules

module _ {P : Call → Type 0} (setup : Setup) (site : Site) where
  pub pending_then_wait-Emits :
      (phase : String) (base : ℕ)
      → P (update_site_status (key_of site) (with_phase phase site).status)
      → ((v : String) → P (patch_annotation (key_of site) attempt_key v))
      → Emits P (pending_then_wait setup phase base site)
  unfolding pending_then_wait
  pending_then_wait-Emits phase base p q =
      Emits-bind _ _ (ignore_status-Emits (with_phase phase site) p setup)
        (λ u. wait-Emits setup base (with_phase phase site) q)

  pub fail-Emits :
      (text : String)
      → P (update_site_status (key_of site) (with_phase "Failed" site).status)
      → Emits P (fail setup text site)
  unfolding fail
  fail-Emits text p =
      Emits-bind _ _ (ignore_status-Emits (with_phase "Failed" site) p setup)
        (λ u. search emit_rules)
