-- ===== src/Site.antt =====
-- The handlers of a FrappeSite that the deletion and the initialisation of a site share:
-- controllers/frappesite_jobs.go and the image lookup of controllers/utils.go. An embedded script
-- of pkg/scripts/templates stands for its text by its file name; reading one cannot fail.
pub mod Deletion
pub mod Secrets
pub mod Init
pub mod Access
pub mod Jobs
pub mod DeletionWrites
pub mod Status
pub mod Reconcile
mod Examples
mod SettledExamples
use Prim.Native.String.{◌++◌}
use frappe_operator.Common.{
  ℕ, String, Bool, true, false, not, Option, none, some, List, [], ◌∷◌, ltb, if◌then◌else◌,
}
use frappe_operator.Types.{NamespacedName, Site, Bench}
use frappe_operator.Kube.{
  Err, plain, wrap, Got, got, failed, Job, JobSpec, Secret, job_kind, Call, create_secret,
  update_secret, create_job, delete, Api, M, pure, raise, nil_dereference, ◌>>=◌, ◌>>◌, ask,
  attempt, perform, check, set_owner, try, is_not_found, is_already_exists,
}
use frappe_operator.Images.{bench_image}
use frappe_operator.Database.{in_namespace, own_key, get_mariadb_root_credentials}

-- `MustBuild` panics if the owner cannot be set.
built : Option Err → M (Unit {0})
built none = pure tt
built (some e) = nil_dereference

must_build : NamespacedName → M (Unit {0})
unfolding built
must_build k = do o ← ask (λ api h. api.set_controller_reference k); built o

-- Builds and creates a job of a site: its container runs a script on the bench's sites, with one
-- secret mounted. `f` wraps the error of the creation.
pub create_site_job : (Err → Err) → Site → Bench → String → String → String → String → M (Unit {0})
unfolding bench_image must_build
create_site_job f site bench suffix container script secret = do
  image ← bench_image bench
  must_build (own_key site suffix)
  perform f (
      create_job (own_key site suffix) (record {
        container = container;
        image = image;
        args = script ∷ [];
        claim = bench.name ++ "-sites";
        secret = some (site.name ++ secret);
        env = [];
      }))

deletion_data : Site → String × String → List (String × String)
deletion_data site (user, password) =
    ("db_root_user", user)
    ∷ ("db_root_password", password)
    ∷ ("site_name", site.spec.site_name)
    ∷ []

overwrite_secret : Call → Got Secret → M (Unit {0})
overwrite_secret c (failed e) = raise (wrap "failed to get existing deletion secret: " e)
overwrite_secret c (got s) = perform (wrap "failed to update deletion secret: ") c

-- After the creation of the deletion secret.
keep_secret : NamespacedName → Call → Option Err → M (Unit {0})
unfolding overwrite_secret
keep_secret key c none = pure tt
keep_secret key c (some e) =
    if not (is_already_exists e)
    then raise (wrap "failed to create deletion secret: " e)
    else do existing ← ask (λ api h. api.get_secret h key); overwrite_secret c existing

create_deletion_job : Site → Bench → String × String → M (Unit {0})
unfolding deletion_data keep_secret create_site_job
create_deletion_job site bench credentials = do
  let key = own_key site "-deletion-secret"
  set_owner key
  made ← attempt (create_secret key (deletion_data site credentials))
  keep_secret key (update_secret key (deletion_data site credentials)) made
  create_site_job (wrap "failed to create site deletion job: ") site bench "-delete" "site-delete"
      "site_delete.sh" "-deletion-secret"
  raise (plain "site deletion job created, waiting for completion")

delete_with : Site → Bench → Got (String × String) → M (Unit {0})
unfolding create_deletion_job
delete_with site bench (got credentials) = create_deletion_job site bench credentials
delete_with site bench (failed e) =
    if is_not_found e then pure tt else raise (wrap "failed to get MariaDB root credentials: " e)

finish_job : Site → Job → M (Unit {0})
finish_job site job =
    if ltb 0 job.succeeded
    then perform (wrap "failed to delete completed deletion job: ")
        (delete job_kind (own_key site "-delete"))
    else if ltb 0 job.failures
    then raise (plain "site deletion job failed")
    else raise (plain "site deletion job is still running")

delete_by : Site → Bench → Got Job → M (Unit {0})
unfolding delete_with finish_job
delete_by site bench (got job) = finish_job site job
delete_by site bench (failed e) =
    if not (is_not_found e) then raise (wrap "failed to get deletion job: " e) else do
      credentials ← try (get_mariadb_root_credentials site)
      delete_with site bench credentials

delete_on : Site → Got Bench → M (Unit {0})
unfolding delete_by
delete_on site (failed e) =
    if is_not_found e
    then pure tt
    else raise (wrap "failed to get referenced bench for deletion: " e)
delete_on site (got bench) = do
  job ← ask (λ api h. api.get_job h (own_key site "-delete"))
  delete_by site bench job

delete_of : Site → Option NamespacedName → M (Unit {0})
unfolding delete_on
delete_of site none = nil_dereference
delete_of site (some r) = do
  bench ← ask (λ api h. api.get_bench h (in_namespace site r))
  delete_on site bench

-- `deleteSite`; an error makes the reconciler try again.
unfoldable pub delete_site : Site → M (Unit {0})
unfolding delete_of
delete_site site = delete_of site site.spec.bench_ref
