-- ===== src/Bench/Components/Writes.antt =====
-- What the components of a bench write.
use frappe_operator.Common.{refl}
use frappe_operator.Common.Int.{pos}
use frappe_operator.Types.{Bench}
use frappe_operator.Kube.{Api}
use frappe_operator.Kube.Ensures.{Ensures-bind}
use frappe_operator.Bench.{Setup}
use frappe_operator.Bench.Components.{
  ensure_gunicorn, ensure_nginx, ensure_socketio, ensure_scheduler,
}
use frappe_operator.Bench.Calls.{IsSame}
use frappe_operator.Bench.Provisioning.{Same, ensure_service-Same, ensure_deployment-Same}

module _ (api : Api) (bench b : Bench) (s : IsSame bench b) (setup : Setup) where
  pub ensure_gunicorn-Same : Same api bench (ensure_gunicorn setup b)
  unfolding ensure_gunicorn
  ensure_gunicorn-Same =
      Ensures-bind (IsSame bench) (IsSame bench) _ _
        (ensure_service-Same api bench b s "gunicorn" "http" (pos 8000) refl)
        (λ c t. ensure_deployment-Same api bench c t setup _ _ _ refl)

  pub ensure_nginx-Same : Same api bench (ensure_nginx setup b)
  unfolding ensure_nginx
  ensure_nginx-Same =
      Ensures-bind (IsSame bench) (IsSame bench) _ _
        (ensure_service-Same api bench b s "nginx" "http" (pos 8080) refl)
        (λ c t. ensure_deployment-Same api bench c t setup _ _ _ refl)

  pub ensure_socketio-Same : Same api bench (ensure_socketio setup b)
  unfolding ensure_socketio
  ensure_socketio-Same =
      Ensures-bind (IsSame bench) (IsSame bench) _ _
        (ensure_service-Same api bench b s "socketio" "socketio" (pos 9000) refl)
        (λ c t. ensure_deployment-Same api bench c t setup _ _ _ refl)

  pub ensure_scheduler-Same : Same api bench (ensure_scheduler setup b)
  unfolding ensure_scheduler
  ensure_scheduler-Same = ensure_deployment-Same api bench b s setup _ _ _ refl
