-- ===== src/Bench/Components.antt =====
-- Gunicorn, NGINX, Socket.IO and the scheduler: controllers/frappebench_deployments.go.
pub mod Writes
use Prim.Native.String.{◌++◌}
use frappe_operator.Common.{String, List, [], ◌∷◌}
use frappe_operator.Common.Int.{pos}
use frappe_operator.Pods.{Container}
use frappe_operator.Types.{Bench}
use frappe_operator.Kube.{M, ◌>>=◌}
use frappe_operator.Resources.{◌▷◌}
use frappe_operator.Resources.ContainerBuilder.{
  new_container_builder, with_args, with_env, with_volume_mount_sub_path, with_port, with_resources,
  with_security_context,
}
use frappe_operator.Bench.{
  Setup, replicas_of, get_gunicorn_resources, get_nginx_resources, get_socketio_resources,
  get_scheduler_resources, container_context, ensure_service, ensure_deployment,
}
use frappe_operator.Common.{some}

abbrev pub with_sites : Container → Container
with_sites c = with_volume_mount_sub_path "sites" "/home/frappe/frappe-bench/sites" "frappe-sites" c

abbrev pub gunicorn_container : Setup → Bench → String → Container
gunicorn_container setup bench image =
    new_container_builder "gunicorn" image
    ▷ with_port "http" (pos 8000)
    ▷ with_sites
    ▷ with_resources (get_gunicorn_resources bench.spec)
    ▷ with_security_context (some (container_context setup bench))
    ▷ with_env "USER" "frappe"

abbrev pub nginx_container : Setup → Bench → String → Container
nginx_container setup bench image =
    new_container_builder "nginx" image
    ▷ with_args ("nginx-entrypoint.sh" ∷ [])
    ▷ with_port "http" (pos 8080)
    ▷ with_env "BACKEND" (bench.name ++ "-gunicorn:8000")
    ▷ with_env "SOCKETIO" (bench.name ++ "-socketio:9000")
    ▷ with_env "UPSTREAM_REAL_IP_ADDRESS" "127.0.0.1"
    ▷ with_env "UPSTREAM_REAL_IP_RECURSIVE" "off"
    ▷ with_env "UPSTREAM_REAL_IP_HEADER" "X-Forwarded-For"
    ▷ with_env "FRAPPE_SITE_NAME_HEADER" "$host"
    ▷ with_sites
    ▷ with_resources (get_nginx_resources bench.spec)
    ▷ with_security_context (some (container_context setup bench))

abbrev pub socketio_container : Setup → Bench → String → Container
socketio_container setup bench image =
    new_container_builder "socketio" image
    ▷ with_args ("node" ∷ "/home/frappe/frappe-bench/apps/frappe/socketio.js" ∷ [])
    ▷ with_port "socketio" (pos 9000)
    ▷ with_sites
    ▷ with_resources (get_socketio_resources bench.spec)
    ▷ with_security_context (some (container_context setup bench))
    ▷ with_env "USER" "frappe"

abbrev pub scheduler_container : Setup → Bench → String → Container
scheduler_container setup bench image =
    new_container_builder "scheduler" image
    ▷ with_args ("bench" ∷ "schedule" ∷ [])
    ▷ with_sites
    ▷ with_resources (get_scheduler_resources bench.spec)
    ▷ with_security_context (some (container_context setup bench))
    ▷ with_env "USER" "frappe"

unfoldable pub ensure_gunicorn : Setup → Bench → M Bench
ensure_gunicorn setup bench = ensure_service bench "gunicorn" "http" (pos 8000) >>= λ b.
    ensure_deployment setup b "gunicorn" (replicas_of (λ r. r.gunicorn) b.spec.component_replicas)
      (gunicorn_container setup b)

unfoldable pub ensure_nginx : Setup → Bench → M Bench
ensure_nginx setup bench = ensure_service bench "nginx" "http" (pos 8080) >>= λ b.
    ensure_deployment setup b "nginx" (replicas_of (λ r. r.nginx) b.spec.component_replicas)
      (nginx_container setup b)

unfoldable pub ensure_socketio : Setup → Bench → M Bench
ensure_socketio setup bench = ensure_service bench "socketio" "socketio" (pos 9000) >>= λ b.
    ensure_deployment setup b "socketio" (replicas_of (λ r. r.socketio) b.spec.component_replicas)
      (socketio_container setup b)

-- One replica, whatever the bench says.
unfoldable pub ensure_scheduler : Setup → Bench → M Bench
ensure_scheduler setup bench =
    ensure_deployment setup bench "scheduler" (pos 1) (scheduler_container setup bench)
