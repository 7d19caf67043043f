-- ===== src/Site/Examples.antt =====
-- Tests of the handlers of a site, and their theorems at concrete inputs.
use frappe_operator.Common.{◌≡◌, ◌≢◌, String, true, false, none, some, [], ◌∷◌, refl, arith, split}
use frappe_operator.Types.{NamespacedName}
use frappe_operator.Backoff.{amd64}
use frappe_operator.Kube.{got, ok, CustomResource, update_site_status, History, Api, ◌>>=◌}
use frappe_operator.Kube.Traces.{is_ok, Grows, Emits}
use frappe_operator.Database.{own_key, new_provider, resolve_db_config}
use frappe_operator.Domain.{resolve_domain}
use frappe_operator.Database.MariaDbProvider.{DatabaseInfo, DatabaseCredentials}
use frappe_operator.Database.MariaDbProvider as MariaDb
use frappe_operator.Requeue.{get_requeue_attempt, with_requeue_attempt}
use frappe_operator.Requeue.RoundTrip.{get_requeue_attempt-with_requeue_attempt}
use frappe_operator.Site.{delete_site}
use frappe_operator.Site.Deletion.{Finished, Succeeded, delete_site-Finished, delete_site-dedicated}
use frappe_operator.Site.Secrets.{is_valid_app, valid_apps, join, apps_to_install}
use frappe_operator.Site.Secrets.Apps.{parts, split-apps_to_install}
use frappe_operator.Site.Init.{ensure_site_initialized}
use frappe_operator.Site.Init.Writes.{InitCall, ensure_site_initialized-InitCall}
use frappe_operator.Site.Init.Readiness.{reports_ready, ensure_site_initialized-ready}
use frappe_operator.Site.Access.{ensure_access}
use frappe_operator.Site.Access.Writes.{AccessCall, ensure_access-AccessCall}
use frappe_operator.Kube.Retry.{retry_on_conflict}
use frappe_operator.Site.Status.{Setup, update_status}
use frappe_operator.Site.Reconcile.{
  provider_ready, provider_ensure, provider_credentials, reconcile,
}
use frappe_operator.Site.Reconcile.Evidence.{Justified}
use frappe_operator.Site.Reconcile.Ready.{reconcile-Justified}
use frappe_operator.Fixtures.{shop, prod, prod_bench_ref, missing, bench_cluster, dropped_cluster}

dropped-ok : is_ok (delete_site shop dropped_cluster []).0 ≡ true
unfolding delete_site ◌>>=◌
dropped-ok = refl

delete_site-Finished_example :
    Finished shop dropped_cluster [] (delete_site shop dropped_cluster []).1
delete_site-Finished_example = delete_site-Finished shop dropped_cluster [] dropped-ok

delete_site-dedicated_example : delete_site shop bench_cluster [] ≡ (ok tt, [])
delete_site-dedicated_example =
    delete_site-dedicated shop prod_bench_ref prod missing missing bench_cluster [] refl refl refl
      refl refl refl refl

apps_test : apps_to_install ("erpnext" ∷ "rm -rf" ∷ "hrms" ∷ []) ≡ "erpnext hrms"
unfolding apps_to_install valid_apps is_valid_app join
apps_test = refl

some_valid : valid_apps ("erpnext" ∷ "rm -rf" ∷ "hrms" ∷ []) ≢ []
unfolding valid_apps is_valid_app
some_valid = cc

split-apps_to_install_example :
    parts (split b' ' (apps_to_install ("erpnext" ∷ "rm -rf" ∷ "hrms" ∷ [])))
    ≡ valid_apps ("erpnext" ∷ "rm -rf" ∷ "hrms" ∷ [])
split-apps_to_install_example =
    split-apps_to_install ("erpnext" ∷ "rm -rf" ∷ "hrms" ∷ []) some_valid

get_requeue_attempt-with_requeue_attempt_example :
    get_requeue_attempt (with_requeue_attempt 41 shop) ≡ 41
get_requeue_attempt-with_requeue_attempt_example =
    get_requeue_attempt-with_requeue_attempt 41 shop (omega arith)

abbrev info : DatabaseInfo
info = record { host = "db.data"; port = "3306"; name = "shop"; provider = "mariadb" }

abbrev creds : DatabaseCredentials
creds = record { username = "shop"; password = "secret"; secret_name = "shop-db-password" }

ensure_site_initialized-InitCall_example :
    Emits (InitCall shop) (ensure_site_initialized shop prod "shop.io" info creds)
ensure_site_initialized-InitCall_example =
    ensure_site_initialized-InitCall shop prod "shop.io" info creds

initialised-ready :
    reports_ready (ensure_site_initialized shop prod "shop.io" info creds dropped_cluster []).0
    ≡ true
unfolding ensure_site_initialized ◌>>=◌
initialised-ready = refl

ensure_site_initialized-ready_example :
    Succeeded (dropped_cluster.get_job [] (own_key shop "-init"))
    × ((ensure_site_initialized shop prod "shop.io" info creds dropped_cluster []).1 ≡ [])
ensure_site_initialized-ready_example =
    ensure_site_initialized-ready shop prod "shop.io" info creds dropped_cluster []
      initialised-ready

ensure_access-AccessCall_example : Emits (AccessCall shop) (ensure_access true shop prod "shop.io")
ensure_access-AccessCall_example = ensure_access-AccessCall true shop prod "shop.io"

abbrev setup : Setup
setup = record { is_openshift = false; convert = amd64; services = λ k. none; retries = 4 }

abbrev shop_key : NamespacedName
shop_key = record { name = "shop"; namespace = "web" }

-- A cluster where everything that the site needs is ready.
abbrev ready_resource : CustomResource
ready_resource = record {
  conditions = some (("Ready", "True") ∷ []);
  user_name = "shop";
  password_secret_name = "shop-db-password";
  password_secret_key = "";
}

abbrev ready_cluster : Api
ready_cluster = record dropped_cluster {
  get_site = λ h k. got shop;
  get_custom = λ h c k. got ready_resource;
  get_secret = λ h k. got (record { name = k.name; contents = ("password", "secret") ∷ [] });
}

abbrev written_phase : History → String
written_phase (update_site_status k st ∷ h) = st.phase
written_phase _ = ""

reconcile_test : written_phase (reconcile setup shop_key ready_cluster []).1 ≡ "Ready"
unfolding reconcile ◌>>=◌ update_status retry_on_conflict provider_ready provider_ensure
    provider_credentials new_provider resolve_db_config resolve_domain ensure_site_initialized
    ensure_access MariaDb.is_ready MariaDb.ensure_database MariaDb.get_credentials
reconcile_test = refl

reconcile-Justified_example :
    Grows (Justified ready_cluster shop) [] (reconcile setup shop_key ready_cluster []).1
reconcile-Justified_example = reconcile-Justified setup shop_key ready_cluster [] shop refl
